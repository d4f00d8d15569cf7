-- ===== src/Relay/Rewards.antt =====
-- sail/relay/rewards.go: the table of an epoch, from its rows on. A share of a levy, which the code
-- computes with floating-point weights, is a parameter; the rows stand in the order of their accounts.
pub mod Cap
pub mod Levy
use mathlib.Core.Option.{get_or}
use Prim.Native.String.{String}
use text.Mathlib.Text.{◌==◌ as str_eq}
use sailnet.Common.{
  ℕ, zero, suc, ◌+◌, ◌-◌, ◌*◌, ◌/◌, ◌^◌, min, List, [], ◌∷◌, Bool, true, false, ◌&&◌, ◌||◌, not,
  Option, none, some,
}
use sailnet.Common.{ltb, leb, ◌==◌, if◌then◌else◌, lookup, insert}

pub record EpochRelay : Type 0 where
  pub earned : ℕ
  pub levy_owed : ℕ
  pub paid : ℕ
  pub paid_to : List (String × ℕ)

abbrev pub Relays : Type 0
Relays = List (String × EpochRelay)

-- From one relay to another: raw owed.
abbrev pub Payouts : Type 0
Payouts = List (String × List (String × ℕ))

abbrev pub dust : ℕ
dust = 1000000000000000000000000

-- The end of the row of `ComputeEpoch`: what was earned, and the levy on it.
pub earned_from : List (String × ℕ) → ℕ
earned_from [] = 0
earned_from ((payer, raw) ∷ ps) = raw + earned_from ps

pub new_row : List (String × ℕ) → List (String × ℕ) → EpochRelay
unfolding earned_from
new_row payers paid_to = record {
  earned = earned_from payers;
  levy_owed = earned_from payers * 10 / 100;
  paid = 0;
  paid_to = paid_to;
}

-- `computeShares`: the amounts of the other relays that are not dust, for every levy that is not 0.
module _ (share : String → String → ℕ) where
  pub shares_from : String → Relays → List (String × ℕ)
  shares_from from [] = []
  shares_from from ((to, r) ∷ rs) =
      let rest = shares_from from rs in
      if str_eq to from || ltb (share from to) dust then rest else (to, share from to) ∷ rest

  pub compute_shares : Relays → Relays → Payouts
  unfolding shares_from
  compute_shares all [] = []
  compute_shares all ((from, f) ∷ rs) =
      let rest = compute_shares all rs in
      let out = shares_from from all in
      if f.levy_owed == 0 then rest else elim out [ [] ↦ rest | x ∷ xs ↦ (from, x ∷ xs) ∷ rest ]

-- `m[to]`; a map has the key at most once.
pub owed_to : String → List (String × ℕ) → ℕ
owed_to to [] = 0
owed_to to ((k, v) ∷ m) = if str_eq k to then v + owed_to to m else owed_to to m

abbrev pub sent_to : String → List (String × ℕ) → ℕ
sent_to to m = get_or (lookup to m) 0

-- What all the tables together give a recipient.
pub receives : String → Payouts → ℕ
unfolding owed_to
receives to [] = 0
receives to ((from, m) ∷ t) = owed_to to m + receives to t

pub scale_entry : String → ℕ → ℕ → List (String × ℕ) → List (String × ℕ)
scale_entry to cap got [] = []
scale_entry to cap got ((k, v) ∷ m) =
    let rest = scale_entry to cap got m in
    if str_eq k to then (k, v * cap / got) ∷ rest else (k, v) ∷ rest

pub scale : String → ℕ → ℕ → Payouts → Payouts
unfolding scale_entry
scale to cap got [] = []
scale to cap got ((from, m) ∷ t) = (from, scale_entry to cap got m) ∷ scale to cap got t

abbrev pub cap_of_levy : EpochRelay → ℕ
cap_of_levy r = r.levy_owed * 80 / 100

-- One round over the relays: the table, and whether one was over its cap.
pub cap_pass : Relays → Payouts → Payouts × Bool
unfolding receives scale
cap_pass [] t = (t, false)
cap_pass ((to, r) ∷ rs) t =
    let got = receives to t in
    let kept = cap_pass rs t in
    let scaled = cap_pass rs (scale to (cap_of_levy r) got t) in
    if leb got (cap_of_levy r) then kept else (scaled.0, true)

pub cap_loop : ℕ → Relays → Payouts → Payouts
unfolding cap_pass
cap_loop zero rs t = t
cap_loop (suc iter) rs t =
    let p = cap_pass rs t in let rest = cap_loop iter rs p.0 in if p.1 then rest else p.0

pub without_dust : List (String × ℕ) → List (String × ℕ)
without_dust [] = []
without_dust ((to, v) ∷ m) = if ltb v dust then without_dust m else (to, v) ∷ without_dust m

pub drop_dust : Payouts → Payouts
unfolding without_dust
drop_dust [] = []
drop_dust ((from, m) ∷ t) =
    let rest = drop_dust t in
    let kept = without_dust m in elim kept [ [] ↦ rest | x ∷ xs ↦ (from, x ∷ xs) ∷ rest ]

-- What a relay paid of what it owes, matched recipient by recipient.
pub paid_of : List (String × ℕ) → List (String × ℕ) → ℕ
paid_of sent [] = 0
paid_of sent ((to, owed) ∷ m) = min (sent_to to sent) owed + paid_of sent m

abbrev pub row_of : String → Payouts → List (String × ℕ)
row_of from t = get_or (lookup from t) []

pub fill_paid : Payouts → Relays → Relays
unfolding paid_of
fill_paid t [] = []
fill_paid t ((from, f) ∷ rs) =
    (from, record f { paid = paid_of f.paid_to (row_of from t) }) ∷ fill_paid t rs

-- `computePayouts`: the shares, five rounds of the cap, and the payments found.
pub capped_payouts : (String → String → ℕ) → Relays → Payouts
unfolding compute_shares cap_loop drop_dust
capped_payouts share rs = drop_dust (cap_loop 5 rs (compute_shares share rs rs))

pub compute_payouts : (String → String → ℕ) → Relays → Relays × Payouts
unfolding capped_payouts fill_paid
compute_payouts share rs = (fill_paid (capped_payouts share rs) rs, capped_payouts share rs)

pub total_owed : List (String × ℕ) → ℕ
total_owed [] = 0
total_owed ((to, v) ∷ m) = v + total_owed m

pub compliant : Relays → Payouts → String → Bool
unfolding total_owed
compliant rs t acct = elim (lookup acct rs) [
  | none ↦ true
  | some r ↦ let owed = total_owed (row_of acct t) in ltb owed dust || leb (owed * 95 / 100) r.paid
]

-- The loop of `PayLevy` over the recipients: the sends made, and whether the last one failed. Below
-- zero, an amount reads as 0: both are dust.
unfoldable pub pay_loop :
    (String → ℕ → Bool) → List (String × ℕ) → List (String × ℕ) → List (String × ℕ) × Bool
pay_loop send sent [] = ([], false)
pay_loop send sent ((to, owed) ∷ m) =
    let amount = owed - sent_to to sent in
    let rest = pay_loop send sent m in
    if ltb amount dust
    then rest
    else (if send to amount then ((to, amount) ∷ rest.0, rest.1) else ([], true))

pub pay_levy : (String → ℕ → Bool) → Relays → Payouts → String → List (String × ℕ) × Bool
unfolding pay_loop compliant
pay_levy send rs t key = elim (lookup key rs) [
  | none ↦ ([], false)
  | some r ↦
      if r.levy_owed == 0 || compliant rs t key
      then ([], false)
      else pay_loop send r.paid_to (row_of key t)
]
