-- ===== src/Relay/Server/TopUp.antt =====
-- sail/relay/server.go: `handleTopUp`, which adds a client's payment to its circuit's quota. The block
-- is given as it was read, and the ledger's answers by the round in which they are asked for; what the
-- rest of the relay does while the block is published, and in the pause before a round, is the argument
-- `others`.
pub mod Net
pub mod Race
use Prim.Native.String.{String}
use text.Mathlib.Text.{◌==◌ as str_eq}
use sailnet.Common.{ℕ, zero, suc, List, [], ◌∷◌, Bool, true, false, not, ◌&&◌, Option, none, some}
use sailnet.Common.{if◌then◌else◌, Bytes, bytes_eq, sub64, mul64, signed_lt}
use sailnet.Relay.Quota.{Quota, add, consume, remaining, known, owner_of}
use sailnet.Relay.Server.Payment.{
  Reply, Outcome, no_answer, unconfirmed, refused, paid, is_paid, Till, Terms, credit_from_ledger,
}

-- A block that could be read; `signed` is the answer of `VerifySigned`.
pub record Supplied : Type 0 where
  pub signed : Bool
  pub link : Bytes
  pub account_hex : String
  pub hash : String

-- What `Process` answers: an old block is one that the ledger has already.
pub data Publish : Type 0 where
  published old_block not_published : Publish

pub data Failure : Type 0 where
  no_ledger bad_block not_addressed not_the_payer already_used publish_failed unknown_tag : Failure
  not_credited : Outcome → Failure

pub data Answer : Type 0 where
  failed : Failure → Answer
  topped_up : ℕ → Answer

-- The credit for the time until the ledger confirms: a minute at the circuit's rate, from 48 MiB to a GiB.
pub provisional : ℕ → ℕ
provisional rate =
    let p = mul64 rate 60 in
    let low = if signed_lt p 50331648 then 50331648 else p in
    if signed_lt 1073741824 low then 1073741824 else low

abbrev pub with_quota : Till → Quota → Till
with_quota s q = record s { quota = q }

-- The rounds end on every outcome but an unconfirmed payment.
pub after_round : Till → Till × Outcome → Outcome → Till × Outcome
after_round s again unconfirmed = again
after_round s again no_answer = (s, no_answer)
after_round s again (refused e) = (s, refused e)
after_round s again (paid owner) = (s, paid owner)

module _ (key : String → String) where
  -- The tests before anything is credited.
  unfoldable pub check_top_up : Terms → Bytes → String → Option Supplied → Quota → Option Failure
  check_top_up t public tag none q = some (if t.has_ledger then bad_block else no_ledger)
  check_top_up t public tag (some b) q =
      if not t.has_ledger
      then some no_ledger
      else (if not b.signed
          then some bad_block
          else (if not (bytes_eq b.link public)
              then some not_addressed
              else (if not (str_eq (owner_of key q tag) "")
                    && not (str_eq b.account_hex (owner_of key q tag))
                  then some not_the_payer
                  else (if known key q b.hash then some already_used else none))))

  -- The bytes that were read from the block move to the circuit's tag, and the provisional credit goes.
  pub move_bytes : String → String → ℕ → ℕ → Quota → Quota × ℕ × Bool
  move_bytes tag hash p bytes q = add key (consume key q hash bytes).0 tag (sub64 bytes p)

  pub settle : String → String → ℕ → Quota → Quota × ℕ × Bool
  unfolding move_bytes
  settle tag hash p q = move_bytes tag hash p (remaining key q hash) q

  pub take_back : String → ℕ → Till → Till
  take_back tag p s = with_quota s (add key s.quota tag (sub64 0 p)).0

  -- From the ledger's last word on.
  pub finish_top_up : String → String → ℕ → Till × Outcome → Till × Answer
  unfolding take_back settle
  finish_top_up tag hash p (s, o) =
      let (q, rem, ok) = settle tag hash p s.quota in
      if is_paid o
      then (if ok
          then (with_quota s q, topped_up rem)
          else (take_back tag p (with_quota s q), failed unknown_tag))
      else (take_back tag p s, failed (not_credited o))

module _ (key : String → String) (pubkey_of : String → Option Bytes)
    (owner_hex : String → Option String) where
  -- The rounds of asking the ledger; only a payment that is not yet confirmed is asked for again.
  pub credit_rounds :
      Terms → ℕ → String → (ℕ → Reply) → (ℕ → Till → Till) → ℕ → Till → Till × Outcome
  unfolding after_round
  credit_rounds t day hash replies others zero s = (s, unconfirmed)
  credit_rounds t day hash replies others (suc r) s =
      let (s', o) = credit_from_ledger key pubkey_of owner_hex t day hash (replies r) s in
      let again = credit_rounds t day hash replies others r (others r s') in after_round s' again o

  -- From the provisional credit on.
  pub confirm_top_up :
      Terms
      → ℕ
      → String
      → String
      → ℕ
      → Publish
      → (ℕ → Reply)
      → (ℕ → Till → Till)
      → Till
      → Till × Answer
  unfolding credit_rounds finish_top_up
  confirm_top_up t day tag hash p not_published replies others s =
      let (s', o) = credit_from_ledger key pubkey_of owner_hex t day hash (replies 8) s in
      if is_paid o
      then finish_top_up key tag hash p (credit_rounds t day hash replies others 8 s')
      else (take_back key tag p s', failed publish_failed)
  confirm_top_up t day tag hash p published replies others s =
      finish_top_up key tag hash p (credit_rounds t day hash replies others 8 s)
  confirm_top_up t day tag hash p old_block replies others s =
      finish_top_up key tag hash p (credit_rounds t day hash replies others 8 s)

  -- `rate` is the circuit's bytes per second.
  pub handle_top_up :
      Terms
      → Bytes
      → ℕ
      → String
      → ℕ
      → Option Supplied
      → Publish
      → (ℕ → Reply)
      → (ℕ → Till → Till)
      → Till
      → Till × Answer
  unfolding check_top_up provisional confirm_top_up
  handle_top_up t public day tag rate none process replies others s =
      (s, failed (if t.has_ledger then bad_block else no_ledger))
  handle_top_up t public day tag rate (some b) process replies others s =
      elim (check_top_up key t public tag (some b) s.quota) [
        | some f ↦ (s, failed f)
        | none ↦
            let p = provisional rate in
            confirm_top_up t day tag b.hash p process replies others
              (others 9 (with_quota s (add key s.quota tag p).0))
      ]
