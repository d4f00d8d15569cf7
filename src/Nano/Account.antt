-- ===== src/Nano/Account.antt =====
-- sail/nano/block.go: building, signing and publishing the blocks of an account. Addresses are their
-- text, hashes and keys their bytes. What the Nano client answers, the text of an error, the hash, the
-- signature and the proof of work are parameters. `Lock` makes each operation one step.
pub mod Publish
pub mod Payment
pub mod Chain
pub mod Offline
use Prim.Native.String.{String}
use sailnet.Common.{
  ℕ, zero, suc, ◌+◌, ◌-◌, Bytes, List, [], ◌∷◌, ◌++◌, Bool, true, false, ◌&&◌, ◌||◌, not,
}
use sailnet.Common.{ltb, ◌==◌, if◌then◌else◌, Option, none, some, byte_at, replicate}
use sailnet.Token.Ops.{fill_bytes, two_128}
use sailnet.Nano.State.{ChainState, View, get, set, set_from_ledger}

pub record Block : Type 0 where
  pub account : String
  pub previous : Bytes
  pub representative : Bytes
  pub balance : ℕ
  pub link : Bytes
  pub signature : Bytes
  pub work : String

-- What of an error the code reads: whether its text has "old block", and whether it is an RPCError.
pub record Failure : Type 0 where
  pub old_block : Bool
  pub semantic : Bool

-- The reply of `AccountInfo`, its texts read: `none` for one that is not a hash or an address.
pub record Info : Type 0 where
  pub frontier : Option Bytes
  pub balance : ℕ
  pub representative : Option Bytes
  pub block_count : ℕ

pub data InfoReply : Type 0 where
  unreachable no_account : InfoReply
  account_info : Info → InfoReply

pub data Subtype : Type 0 where
  send_block receive_block open_block change_block : Subtype

pub data Error : Type 0 where
  no_info bad_info not_opened insufficient bad_address bad_hash out_of_range no_work refused : Error

-- A hash, a hash with a `PublishError`, or another error.
pub data Sent : Type 0 where
  published unpublished : Bytes → Block → Sent
  failed : Error → Sent

-- The client at the time of one operation, and the cache of work.
pub record Node : Type 0 where
  pub info : InfoReply
  pub process : Block → Subtype → Option Failure
  pub cached_work : Bytes → ℕ → Option String
  pub work_generate : Bytes → ℕ → Option String

pub record Crypto : Type 0 where
  pub pubkey_of : String → Option Bytes
  pub blake : Bytes → Bytes
  pub sign : Bytes → Bytes
  pub valid_work : Bytes → String → ℕ → Bool
  pub work_cpu : Bytes → ℕ → String

-- The parts of an `Account` that do not change: its address and public key, and whether the process
-- or the account may use the CPU for work.
pub record Account : Type 0 where
  pub address : String
  pub public : Bytes
  pub cpu : Bool

abbrev pub Cache : Type 0
Cache = Option ChainState

abbrev pub send_threshold : ℕ
send_threshold = 18446744039349813248

abbrev pub receive_threshold : ℕ
receive_threshold = 18446743798831644672

abbrev pub zero_key : Bytes
unfolding replicate
zero_key = replicate 32 0

abbrev pub preamble : Bytes
unfolding replicate
preamble = replicate 31 0 ++ (6 ∷ [])

unfoldable pub tagged_rep : Bytes → Bool
tagged_rep rep = (byte_at 0 rep == 83) && (byte_at 1 rep == 65) && (byte_at 2 rep == 1)

-- The state that a reply of `AccountInfo` describes, when both its texts are well formed.
pub info_view : Info → Option View
info_view i = elim i.frontier [ none ↦ none | some f ↦ with_rep f i.representative ]
  where
    with_rep : Bytes → Option Bytes → Option View
    with_rep f none = none
    with_rep f (some r) =
        some (record { previous = f; balance = i.balance; representative = r; opened = true })

-- An account that is not on the ledger.
abbrev pub unopened : View
unopened = record { previous = zero_key; balance = 0; representative = zero_key; opened = false }

module _ (c : Crypto) where
  pub hash : Block → Option Bytes
  hash b = elim (c.pubkey_of b.account) [
    | none ↦ none
    | some pk ↦
        if ltb b.balance two_128
        then some (
            c.blake
              (preamble ++ pk ++ b.previous ++ b.representative ++ fill_bytes b.balance ++ b.link))
        else none
  ]

  module _ (a : Account) where
    -- The state that `frontier` gives, and the cache it leaves.
    pub frontier : Node → Cache → ℕ → Cache × (Option View × Error)
    unfolding get set_from_ledger info_view
    frontier n s now = elim n.info [
      | unreachable ↦ (s, (get s, no_info))
      | no_account ↦ (s, (some unopened, no_info))
      | account_info i ↦ elim (info_view i) [
        | none ↦ (s, (none, bad_info))
        | some v ↦ (set_from_ledger s v i.block_count now, (some v, no_info))
      ]
    ]

    pub work_cpu_or_none : Bytes → ℕ → Option String
    work_cpu_or_none root t = if a.cpu then some (c.work_cpu root t) else none

    unfoldable pub work : Node → Bytes → ℕ → Option String
    unfolding work_cpu_or_none
    work n root t = elim (n.cached_work root t) [
      | some w ↦ some w
      | none ↦ elim (n.work_generate root t) [
        | some w ↦ if c.valid_work root w t then some w else work_cpu_or_none root t
        | none ↦ work_cpu_or_none root t
      ]
    ]

    abbrev pub is_send : Subtype → Bool
    is_send send_block = true
    is_send _ = false

    -- The state after a block of ours.
    abbrev pub after : Bytes → Block → View
    after h b = record {
      previous = h;
      balance = b.balance;
      representative = b.representative;
      opened = true;
    }

    pub publish : Node → Cache → ℕ → Block → Bytes → Subtype → Cache × Sent
    unfolding set
    publish n s now b h subtype = elim (n.process b subtype) [
      | none ↦ (set s (after h b) now, published h b)
      | some e ↦
          if e.old_block
          then (set s (after h b) now, published h b)
          else (if is_send subtype && not e.semantic
              then (set s (after h b) now, unpublished h b)
              else (s, failed refused))
    ]

    pub sign_and_publish : Node → Cache → ℕ → Block → Subtype → Bytes → ℕ → Cache × Sent
    unfolding hash work publish
    sign_and_publish n s now b subtype root t = elim (hash b) [
      | none ↦ (s, failed out_of_range)
      | some h ↦ elim (work n root t) [
        | none ↦ (s, failed no_work)
        | some w ↦ publish n s now (record b { signature = c.sign h; work = w }) h subtype
      ]
    ]

    abbrev pub new_block : View → Bytes → ℕ → Bytes → Block
    new_block v rep balance link = record {
      account = a.address;
      previous = v.previous;
      representative = rep;
      balance = balance;
      link = link;
      signature = [];
      work = "";
    }

    -- The part of the sends after the frontier is known: its guards in order, then the block.
    pub spend : Node → Cache → ℕ → View → Option Bytes → ℕ → Bytes → Cache × Sent
    unfolding sign_and_publish
    spend n s now v link amount rep =
        if not v.opened
        then (s, failed not_opened)
        else (if ltb v.balance amount then (s, failed insufficient) else elim link [
          | none ↦ (s, failed bad_address)
          | some l ↦
              sign_and_publish n s now (new_block v rep (v.balance - amount) l) send_block
                v.previous send_threshold
        ])

    -- The representative a payment carries when the caller names none.
    pub neutral : Bytes → Bytes
    unfolding tagged_rep
    neutral rep = if tagged_rep rep then a.public else rep

    pub with_frontier : Node → Cache → ℕ → (Cache → View → Cache × Sent) → Cache × Sent
    unfolding frontier
    with_frontier n s now k =
        let f = frontier n s now in elim f.1.0 [ none ↦ (f.0, failed f.1.1) | some v ↦ k f.0 v ]

    pub send : Node → Cache → ℕ → String → ℕ → Option Bytes → Cache × Sent
    unfolding with_frontier spend neutral
    send n s now to amount rep = with_frontier n s now λ s' v.
        spend n s' now v (c.pubkey_of to) amount
          (elim rep [ none ↦ neutral v.representative | some r ↦ r ])

    -- `SendBlock`, with the same guards and a representative that is never tagged.
    pub send_a_block : Node → Cache → ℕ → String → ℕ → Cache × Sent
    unfolding with_frontier spend neutral
    send_a_block n s now to amount =
        with_frontier n s now
          λ s' v. spend n s' now v (c.pubkey_of to) amount (neutral v.representative)

    -- `SendRawBlock`, whose link is given and whose representative stays.
    pub send_raw_block : Node → Cache → ℕ → Bytes → ℕ → Cache × Sent
    unfolding with_frontier spend
    send_raw_block n s now link amount =
        with_frontier n s now λ s' v. spend n s' now v (some link) amount v.representative

    -- A hash is given by what `hexTo32` reads of its text.
    pub receive : Node → Cache → ℕ → Option Bytes → ℕ → Cache × Sent
    unfolding with_frontier sign_and_publish
    receive n s now send_hash amount = with_frontier n s now λ s' v. elim send_hash [
      | none ↦ (s', failed bad_hash)
      | some link ↦
          sign_and_publish n s' now
            (new_block v (if v.opened then v.representative else a.public) (v.balance + amount)
              link)
            (if v.opened then receive_block else open_block)
            (if v.opened then v.previous else a.public) receive_threshold
    ]

    pub change_rep : Node → Cache → ℕ → Bytes → Cache × Sent
    unfolding with_frontier sign_and_publish
    change_rep n s now rep = with_frontier n s now λ s' v.
        if not v.opened
        then (s', failed not_opened)
        else sign_and_publish n s' now (new_block v rep v.balance zero_key) change_block v.previous
            send_threshold

    -- The count and the first error, after one receive.
    pub tally : Sent → ℕ × Option Error → ℕ × Option Error
    tally (published _ _) (got, e) = (got + 1, e)
    tally (unpublished _ _) (got, none) = (got, some refused)
    tally (unpublished _ _) (got, some x) = (got, some x)
    tally (failed x) (got, none) = (got, some x)
    tally (failed x) (got, some y) = (got, some y)

    -- The loop of `ReceiveAll`, with the client at each round: how many were received, and the first
    -- error.
    pub receive_loop :
        List (Node × Option Bytes × ℕ) → Cache → ℕ → ℕ × Option Error → Cache × (ℕ × Option Error)
    unfolding receive tally
    receive_loop [] s now acc = (s, acc)
    receive_loop ((n, h, amount) ∷ rs) s now (got, e) =
        let r = receive n s now h amount in receive_loop rs r.0 now (tally r.1 (got, e))
