-- ===== src/Relay/Server/Payment.antt =====
-- sail/relay/server.go: a payment that the ledger confirms becomes quota: `creditFromLedger` with
-- `floorCredit`, and the reward tag of rewards.go. The ledger's answer is an argument, with its texts
-- read; the owner of an account in hex is the parameter `owner_hex`, and `pubkey_of` reads an address.
-- Byte counts are int64 bit patterns.
pub mod Sound
pub mod Floor
use mathlib.Core.Option.{get_or}
use Prim.Native.String.{String}
use text.Mathlib.Text.{◌==◌ as str_eq}
use sailnet.Common.{ℕ, zero, suc, ◌+◌, List, [], ◌∷◌, Bool, true, false, not, ◌&&◌, ◌||◌}
use sailnet.Common.{ltb, leb, ◌==◌, if◌then◌else◌, length, Option, none, some, lookup, insert}
use sailnet.Common.{Bytes, positive, signed_lt, get_uint32}
use sailnet.Token.Ops.{Op, decode, ok, err, op_reward}
use sailnet.Relay.Quota.{Quota, credit, bytes_for, at}
use sailnet.Relay.Spot.{rep_bonus}

-- The representative of a reward payment carries the epoch.
pub reward_epoch : (String → Option Bytes) → String → Option ℕ
reward_epoch pubkey_of rep = elim (pubkey_of rep) [
  | none ↦ none
  | some k ↦ elim (decode k) [
    | err e ↦ none
    | ok op ↦ if op.code == op_reward then some (get_uint32 op.aux) else none
  ]
]

pub record BlockInfo : Type 0 where
  pub subtype : String
  pub link_as_account : String  -- "" when the answer has none
  pub link_address : String  -- the address of the link, or "" when it is not 32 bytes in hex
  pub representative : String
  pub confirmed : String
  pub amount : Option ℕ  -- none when it is no number, or below zero
  pub account : String

-- What `BlocksInfo` answers for one block: an error, no such block, or the block.
pub data Reply : Type 0 where
  unreachable missing : Reply
  found : BlockInfo → Reply

pub data Refusal : Type 0 where
  no_ledger not_found not_a_send elsewhere levy bad_amount below_minimum no_account : Refusal

-- The two transient errors may go away; `paid` names the owner.
pub data Outcome : Type 0 where
  no_answer unconfirmed : Outcome
  refused : Refusal → Outcome
  paid : String → Outcome

abbrev pub is_paid : Outcome → Bool
is_paid no_answer = false
is_paid unconfirmed = false
is_paid (refused r) = false
is_paid (paid owner) = true

pub record Till : Type 0 where
  pub quota : Quota
  pub welcome : List (String × ℕ)  -- the day of each wallet's last floor

-- A relay's own settings, and its price at this moment in raw for a MiB.
pub record Terms : Type 0 where
  pub has_ledger : Bool
  pub address : String
  pub min_credit : ℕ
  pub rate : ℕ
  pub rep_bonus_pct : ℕ
  pub friends : List String

-- Only the entries of this day.
pub of_day : ℕ → List (String × ℕ) → List (String × ℕ)
of_day day [] = []
of_day day ((k, d) ∷ w) = let rest = of_day day w in if d == day then (k, d) ∷ rest else rest

unfoldable pub floor_credit : ℕ → ℕ → String → ℕ → List (String × ℕ) → List (String × ℕ) × ℕ
unfolding of_day
floor_credit min_credit day owner n welcome =
    let kept = if ltb 10000 (length welcome) then of_day day welcome else welcome in
    if not (positive min_credit) || (not (signed_lt n min_credit) || str_eq owner "")
    then (welcome, n)
    else (if at owner welcome == day then (welcome, n) else (insert owner day kept, min_credit))

-- The floor counts where it is more.
pub granted : Terms → ℕ → String → ℕ → List (String × ℕ) → List (String × ℕ) × ℕ
unfolding floor_credit
granted t day owner n welcome =
    let (welcome', floored) = floor_credit t.min_credit day owner n welcome in
    (welcome', if signed_lt n floored then floored else n)

abbrev pub recipient : BlockInfo → String
recipient b = if str_eq b.link_as_account "" then b.link_address else b.link_as_account

module _ (key : String → String) (pubkey_of : String → Option Bytes)
    (owner_hex : String → Option String) where
  -- The bytes that the amount buys, with the bonus; none below the minimum.
  pub bought : Terms → BlockInfo → ℕ → Option ℕ
  bought t b amount =
      let n = bytes_for amount t.rate in
      let (more, granted) = rep_bonus pubkey_of t.rep_bonus_pct t.friends n b.representative in
      if positive n then some (if granted then more else n) else none

  -- The credit of a block that passed the tests on where it comes from and goes to.
  pub credit_owner : Terms → ℕ → String → BlockInfo → ℕ → Till → Till × Outcome
  unfolding granted
  credit_owner t day tag b n s = elim (owner_hex b.account) [
    | none ↦ (s, refused no_account)
    | some owner ↦
        let (welcome, bytes) = granted t day owner n s.welcome in
        (record { quota = (credit key s.quota tag bytes owner).0; welcome = welcome }, paid owner)
  ]

  pub credit_block : Terms → ℕ → String → BlockInfo → Till → Till × Outcome
  unfolding bought credit_owner reward_epoch
  credit_block t day tag b s =
      let is_levy : Bool = elim (reward_epoch pubkey_of b.representative) [
        | none ↦ false
        | some e ↦ true
      ] in
      if not (str_eq b.subtype "send")
      then (s, refused not_a_send)
      else (if not (str_eq (recipient b) t.address)
          then (s, refused elsewhere)
          else (if is_levy
              then (s, refused levy)
              else (if not (str_eq b.confirmed "true") then (s, unconfirmed) else elim b.amount [
                | none ↦ (s, refused bad_amount)
                | some amount ↦ elim (bought t b amount) [
                  | none ↦ (s, refused (if amount == 0 then bad_amount else below_minimum))
                  | some n ↦ credit_owner t day tag b n s
                ]
              ])))

  pub credit_from_ledger : Terms → ℕ → String → Reply → Till → Till × Outcome
  unfolding credit_block
  credit_from_ledger t day tag unreachable s =
      (s, if t.has_ledger then no_answer else refused no_ledger)
  credit_from_ledger t day tag missing s =
      (s, refused (if t.has_ledger then not_found else no_ledger))
  credit_from_ledger t day tag (found b) s =
      if t.has_ledger then credit_block t day tag b s else (s, refused no_ledger)
