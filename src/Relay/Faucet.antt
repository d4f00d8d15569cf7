-- ===== src/Relay/Faucet.antt =====
-- sail/relay/faucet.go: the grants. Times are unix seconds and days the UTC day number; the counts of
-- claims are Go's int as 64-bit patterns. Whether a text is a nano address is a parameter, and a send
-- is given by its result. A section under the mutex is one step, so a request is up to two of them.
pub mod Limits
pub mod Refunds
use mathlib.Core.Option.{get_or}
use Prim.Native.String.{String, ◌++◌ as str_append}
use sailnet.Common.{
  ℕ, ◌+◌, ◌-◌, ◌*◌, ◌/◌, List, [], ◌∷◌, Bool, true, false, ◌&&◌, ◌||◌, not, Option, none, some,
}
use sailnet.Common.{ltb, ◌==◌, if◌then◌else◌, lookup, insert, erase, add64, sub64, signed_lt}

pub record FaucetState : Type 0 where
  pub day : ℕ
  pub ips : List (String × ℕ)
  pub accounts : List (String × ℕ)
  pub paid : ℕ
  pub refused : ℕ
  pub last_paid : ℕ

-- The settings: what each of the two wallets grants, its limit, and whether it has a key.
pub record Faucet : Type 0 where
  pub amount : ℕ
  pub per_ip : ℕ
  pub has_key : Bool
  pub has_nano : Bool
  pub trial_amount : Option ℕ
  pub trial_per_ip : ℕ
  pub has_trial_key : Bool

pub record Request : Type 0 where
  pub account : String
  pub node : Bool
  pub wants_trial : Bool

pub data Method : Type 0 where
  options post other_method : Method

-- What a claim costs and against which counter it goes.
pub record Claim : Type 0 where
  pub pay : ℕ
  pub claims : ℕ
  pub limit : ℕ
  pub ip_key : String
  pub payable : Bool
  pub trial : Bool

pub claim_of : Faucet → Request → String → Claim
claim_of f r ip = go (r.wants_trial && f.has_trial_key) f.trial_amount
  where
    registration : Claim
    registration = record {
      pay = if r.node then f.amount * 4 else f.amount;
      claims = if r.node then 4 else 1;
      limit = f.per_ip;
      ip_key = ip;
      payable = f.has_nano && f.has_key;
      trial = false;
    }

    go : Bool → Option ℕ → Claim
    go true (some amount) = record {
      pay = amount;
      claims = 1;
      limit = f.trial_per_ip;
      ip_key = str_append "trial|" ip;
      payable = f.has_nano;
      trial = true;
    }
    go _ _ = registration

abbrev pub count_at : String → List (String × ℕ) → ℕ
count_at k m = get_or (lookup k m) 0

abbrev pub day_of : ℕ → ℕ
day_of now = now / 86400

-- A new day starts with no counts; the accounts stay.
unfoldable pub roll : ℕ → FaucetState → FaucetState
roll now s =
    if s.day == day_of now
    then s
    else record s { day = day_of now; ips = []; paid = 0; refused = 0 }

pub data Verdict : Type 0 where
  admitted account_used address_used : Verdict

unfoldable pub admit : ℕ → String → Claim → FaucetState → FaucetState × Verdict
unfolding roll
admit now acct c s =
    let s' = roll now s in
    if ltb now (count_at acct s'.accounts + 86400)
    then (record s' { refused = s'.refused + 1 }, account_used)
    else (if signed_lt c.limit (add64 (count_at c.ip_key s'.ips) c.claims)
        then (record s' { refused = s'.refused + 1 }, address_used)
        else (
          record s' {
            ips = insert c.ip_key (add64 (count_at c.ip_key s'.ips) c.claims) s'.ips;
            accounts = insert acct now s'.accounts;
          },
          admitted,
        ))

-- The claim did not go out: it is given back.
pub refund : String → Claim → FaucetState → FaucetState
refund acct c s = record s {
  ips = insert c.ip_key (sub64 (count_at c.ip_key s.ips) c.claims) s.ips;
  accounts = erase acct s.accounts;
}

pub settle : ℕ → FaucetState → FaucetState
settle now s = record s { paid = s.paid + 1; last_paid = now }

-- The status and, where the reply names one, the amount.
pub record Reply : Type 0 where
  pub code : ℕ
  pub ok : Bool
  pub amount : ℕ

abbrev pub reply : ℕ → Bool → ℕ → Reply
reply code ok amount = record { code = code; ok = ok; amount = amount }

-- The second section, once the send has ended with `sent` at the time `now`.
pub finish : Faucet → ℕ → String → Claim → Bool → FaucetState → FaucetState × Reply
unfolding refund settle
finish f now acct c sent s =
    if not c.payable
    then (refund acct c s, reply 503 false c.pay)
    else (if sent
        then (settle now s, reply 200 true c.pay)
        else (refund acct c s, reply 503 false f.amount))

-- `ServeHTTP` for a request that no other one interleaves with. `body` is `none` when it does not
-- parse; a wallet of trials without money is refused like any other.
module _ (is_address : String → Bool) where
  pub serve :
      Faucet
      → Method
      → Option Request
      → String
      → ℕ
      → ℕ
      → Bool
      → FaucetState
      → FaucetState × Option Reply
  unfolding admit finish claim_of
  serve f options body ip now later sent s = (s, none)
  serve f other_method body ip now later sent s = (s, some (reply 405 false f.amount))
  serve f post none ip now later sent s = (s, some (reply 400 false f.amount))
  serve f post (some r) ip now later sent s =
      if not (is_address r.account)
      then (s, some (reply 400 false f.amount))
      else (let c = claim_of f r ip in
          let a = admit now r.account c s in
          let d = finish f later r.account c sent a.0 in
          elim a.1 [
            | admitted ↦ (d.0, some d.1)
            | account_used ↦ (a.0, some (reply 429 false f.amount))
            | address_used ↦ (a.0, some (reply 429 false (if c.trial then c.pay else f.amount)))
          ])

-- `Counters`.
pub counters : ℕ → FaucetState → ℕ × ℕ × ℕ
counters now s =
    if s.day == day_of now then (s.paid, s.refused, s.last_paid) else (0, 0, s.last_paid)
