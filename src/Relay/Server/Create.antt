-- ===== src/Relay/Server/Create.antt =====
-- sail/relay/server.go: `handleCreate` and `acceptSuppliedPayment`: whether a CREATE opens a circuit. The
-- keys and the reply that follow are not modelled; what the ledger and the rest of the relay do while
-- a payment is checked are arguments.
pub mod Admitted
pub mod Free
use Prim.Native.String.{String}
use text.Mathlib.Text.{◌==◌ as str_eq}
use sailnet.Common.{
  ℕ, ◌/◌, List, [], ◌∷◌, Bool, true, false, not, ◌&&◌, ◌||◌, ltb, leb, ◌==◌, if◌then◌else◌,
}
use sailnet.Common.{length, take, drop, Option, none, some, Bytes, bytes_eq, positive, signed_lt}
use sailnet.Relay.Quota.{Quota, credit, known, owner_of, remaining}
use sailnet.Relay.Pairing.{Server, Crypto, owner_create, pairing_create}
use sailnet.Relay.Server.Verify.{Verifier, allow_verify, mark_bad, set_busy, clear_busy}
use sailnet.Relay.Server.Payment.{
  Reply, Outcome, no_answer, unconfirmed, refused, paid, is_paid, Till, Terms, credit_from_ledger,
}
use sailnet.Relay.Server.TopUp.{
  Supplied, Publish, published, old_block, not_published, credit_rounds,
}
use sailnet.Relay.Server.Metering.{overdraft_ok}

-- What a CREATE reads and changes: the pairing state with the quota in it, the table of the floor, and
-- the limits on ledger checks.
pub record Front : Type 0 where
  pub door : Server
  pub quota : Quota
  pub welcome : List (String × ℕ)
  pub verifier : Verifier

pub record Settings : Type 0 where
  pub terms : Terms
  pub public : Bytes
  pub is_bridge : Bool
  pub bootstrap : ℕ
  pub registry : Option (List String)

-- What happens outside while a CREATE is served: the time, the block the client brought as it was read,
-- whether its hash is the tag, what publishing it answers, the ledger's answers, and what others do
-- between the rounds.
pub record World : Type 0 where
  pub now : ℕ  -- nanoseconds
  pub unix : ℕ  -- seconds
  pub ip : String
  pub supplied : Option Supplied
  pub hash_is_tag : Bool
  pub process : Publish
  pub replies : ℕ → Reply
  pub others : ℕ → Till → Till

pub data Refusal : Type 0 where
  bad_create too_many not_accepted owner_unknown not_signed quota_spent : Refusal

pub data Verdict : Type 0 where
  rejected : Refusal → Verdict
  opened : Verdict

-- The quota stands in the pairing state while its functions run.
abbrev pub door_of : Front → Server
door_of f = record f.door { quota = some f.quota }

abbrev pub quota_in : Front → Server → Front
quota_in f s = record f { door = s; quota = elim s.quota [ none ↦ f.quota | some q ↦ q ] }

abbrev pub till_of : Front → Till
till_of f = record { quota = f.quota; welcome = f.welcome }

abbrev pub till_in : Front → Till → Front
till_in f t = record f { quota = t.quota; welcome = t.welcome }

abbrev pub is_transient : Outcome → Bool
is_transient no_answer = true
is_transient unconfirmed = true
is_transient (refused r) = false
is_transient (paid owner) = false

-- A failed check marks the tag, unless the failure may go away.
pub mark_failed : ℕ → String → Outcome → Front → Front
mark_failed now tag o f =
    if is_paid o || is_transient o then f else record f { verifier = mark_bad now tag f.verifier }

module _ (c : Crypto) (pubkey_of : String → Option Bytes) (owner_hex : String → Option String) where
  -- The payment in a block that the client brought; a block that does not stand is marked.
  pub accept_supplied : Settings → World → String → Front → Front
  unfolding mark_failed
  accept_supplied s w tag f =
      let bad = record f { verifier = mark_bad w.now tag f.verifier } in
      let (t, o) =
        credit_rounds c.quota_key pubkey_of owner_hex s.terms (w.unix / 86400) tag w.replies
          w.others 5 (till_of f) in
      let asked = mark_failed w.now tag o (till_in f t) in
      elim w.supplied [
        | none ↦ bad
        | some b ↦
            if b.signed && w.hash_is_tag && bytes_eq b.link s.public
            then elim w.process [ not_published ↦ f | published ↦ asked | old_block ↦ asked ]
            else bad
      ]

  -- The ledger is asked about the tag itself, which is busy meanwhile.
  pub ask_ledger : Settings → World → String → Front → Front × Bool
  unfolding mark_failed
  ask_ledger s w tag f =
      let (t, o) =
        credit_from_ledger c.quota_key pubkey_of owner_hex s.terms (w.unix / 86400) tag
          (w.replies 9) (till_of f) in
      let g = till_in f t in
      let back = record g { verifier = clear_busy tag (set_busy tag g.verifier) } in
      (mark_failed w.now tag o back, is_paid o)

  -- The owner's circuit and a wallet with a pairing code: what they add to the quota.
  unfoldable pub free_rides : World → String → Bytes → Front → Front
  free_rides w tag payload f =
      let client_pub = take 32 payload in
      let tag_bytes = take 32 (drop 32 payload) in
      let sig = take 64 (drop 64 payload) in
      let g = quota_in f (owner_create c (door_of f) tag tag_bytes client_pub sig).0 in
      quota_in g
        (pairing_create c (door_of g) w.unix tag tag_bytes client_pub sig (drop 128 payload)).0

  -- A small quota for whoever holds the secret of this bridge.
  pub bootstrap : Settings → String → Bytes → Front → Front
  bootstrap s tag payload f =
      if not (known c.quota_key f.quota tag)
        && s.is_bridge
        && positive s.bootstrap
        && length payload == 128
      then record f { quota = (credit c.quota_key f.quota tag s.bootstrap "").0 }
      else f

  -- The tests on a tag that is known: its owner's signature, and what is left.
  unfoldable pub check_owner : (String → Option Bytes) → Settings → String → Bytes → Quota → Verdict
  check_owner of_hex s tag payload q =
      let spent =
        not (positive (remaining c.quota_key q tag))
        && not (overdraft_ok c.quota_key s.registry q tag (remaining c.quota_key q tag)) in
      let checked = if spent then rejected quota_spent else opened in
      if str_eq (owner_of c.quota_key q tag) ""
      then checked
      else elim (of_hex (owner_of c.quota_key q tag)) [
        | none ↦ rejected owner_unknown
        | some o ↦
            if c.verify_create o (take 32 payload) (take 32 (drop 32 payload))
              (take 64 (drop 64 payload))
            then checked
            else rejected not_signed
      ]

  -- What may make the tag known before the ledger is asked about it.
  pub before_asking : Settings → World → String → Bytes → Front → Front
  unfolding bootstrap accept_supplied
  before_asking s w tag payload f =
      let g = bootstrap s tag payload f in
      if not (known c.quota_key g.quota tag) && ltb 128 (length payload)
      then accept_supplied s w tag g
      else g

  -- From the tests on the rate of ledger checks on, for a tag that was not known.
  pub pay_for : Settings → World → String → Bytes → Front → Front × Bool
  unfolding before_asking ask_ledger
  pay_for s w tag payload f =
      let h = before_asking s w tag payload f in
      if known c.quota_key h.quota tag then (h, true) else ask_ledger s w tag h

  unfoldable pub handle_create :
      (String → Option Bytes) → Settings → World → String → Bytes → Front → Front × Verdict
  unfolding free_rides pay_for check_owner
  handle_create of_hex s w tag payload f =
      let g = free_rides w tag payload f in
      let (v, allowed) = allow_verify w.now tag w.ip g.verifier in
      let (h, ok) = pay_for s w tag payload (record g { verifier = v }) in
      if ltb (length payload) 128
      then (f, rejected bad_create)
      else (if known c.quota_key g.quota tag
          then (g, check_owner of_hex s tag payload g.quota)
          else (if not allowed
              then (record g { verifier = v }, rejected too_many)
              else (if ok
                  then (h, check_owner of_hex s tag payload h.quota)
                  else (h, rejected not_accepted))))
