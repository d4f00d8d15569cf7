-- ===== src/Relay/Rewards/Cap.antt =====
-- sail/relay/rewards.go: the cap on what a relay receives.
use Prim.Native.String.{String}
use text.Mathlib.Text.{◌==◌ as str_eq}
use text.Mathlib.TextEquality.{eq_iff}
use native.Mathlib.Nat.{add-mul, div-mul-le_self, le_of_mul-le-mul_right, mul_comm, mul-le-mul_left}
use sailnet.Common.{
  ℕ, zero, suc, ◌+◌, ◌*◌, ◌/◌, ◌≤◌, ◌<◌, ◌≡◌, refl, arith, List, [], ◌∷◌, some, Bool-cases, inl,
  inr,
}
use sailnet.Common.{leb, lookup}
use sailnet.Relay.Rewards.{
  EpochRelay, Relays, Payouts, owed_to, receives, scale_entry, scale, cap_of_levy, cap_pass,
  cap_loop, without_dust, drop_dust, compute_shares, capped_payouts, compute_payouts,
}

-- A share that is scaled from `got` down to a limit, times `got`.
owed_scaled :
    (to : String) (limit got : ℕ) (m : List (String × ℕ))
    → owed_to to (scale_entry to limit got m) * got ≤ owed_to to m * limit
unfolding scale_entry owed_to
owed_scaled to limit got [] =
    omega (arith, native.Mathlib.Nat.zero-mul got, native.Mathlib.Nat.zero-mul limit)
owed_scaled to limit got ((k, v) ∷ m) = ground (
  arith,
  div-mul-le_self (v * limit) got,
  owed_scaled to limit got m,
  add-mul (v * limit / got) (owed_to to (scale_entry to limit got m)) got,
  add-mul v (owed_to to m) limit,
)

receives_scaled :
    (to : String) (limit got : ℕ) (t : Payouts)
    → receives to (scale to limit got t) * got ≤ receives to t * limit
unfolding receives scale
receives_scaled to limit got [] =
    omega (arith, native.Mathlib.Nat.zero-mul got, native.Mathlib.Nat.zero-mul limit)
receives_scaled to limit got ((from, m) ∷ t) = omega (
  arith,
  owed_scaled to limit got m,
  receives_scaled to limit got t,
  add-mul (owed_to to (scale_entry to limit got m)) (receives to (scale to limit got t)) got,
  add-mul (owed_to to m) (receives to t) limit,
)

-- Scaling the recipient down to its limit brings it there.
scaled_within :
    (to : String) (limit : ℕ) (t : Payouts)
    → limit < receives to t
    → receives to (scale to limit (receives to t) t) ≤ limit
scaled_within to limit t h =
    le_of_mul-le-mul_right {k = receives to t}
      (omega (arith, receives_scaled to limit (receives to t) t, mul_comm (receives to t) limit))
      (omega (arith, h))

-- A division by what the factor does not pass does not grow.
shrinks : (v limit got : ℕ) → limit < got → v * limit / got ≤ v
shrinks v limit got h =
    le_of_mul-le-mul_right {k = got}
      (omega (
        arith,
        div-mul-le_self (v * limit) got,
        mul-le-mul_left {m = limit} {n = got} v (omega (arith, h)),
      ))
      (omega (arith, h))

owed_never_grows :
    (j to : String) (limit got : ℕ) (m : List (String × ℕ))
    → limit < got
    → owed_to j (scale_entry to limit got m) ≤ owed_to j m
unfolding scale_entry owed_to
owed_never_grows j to limit got [] h = omega arith
owed_never_grows j to limit got ((k, v) ∷ m) h =
    ground (arith, shrinks v limit got h, owed_never_grows j to limit got m h)

receives_never_grows :
    (j to : String) (limit got : ℕ) (t : Payouts)
    → limit < got
    → receives j (scale to limit got t) ≤ receives j t
unfolding receives scale
receives_never_grows j to limit got [] h = omega arith
receives_never_grows j to limit got ((from, m) ∷ t) h =
    omega (arith, owed_never_grows j to limit got m h, receives_never_grows j to limit got t h)

pass_never_grows :
    (j : String) (rs : Relays) (t : Payouts) → receives j (cap_pass rs t).0 ≤ receives j t
unfolding cap_pass
pass_never_grows j [] t = omega arith
pass_never_grows j ((to, r) ∷ rs) t = elim (Bool-cases (leb (receives to t) (cap_of_levy r))) [
  | inl e ↦ ground (arith, e, pass_never_grows j rs t)
  | inr e ↦ ground (
    arith,
    e,
    pass_never_grows j rs (scale to (cap_of_levy r) (receives to t) t),
    receives_never_grows j to (cap_of_levy r) (receives to t) t (ground (arith, e)),
  )
]

pass_caps :
    (j : String) (r : EpochRelay) (rs : Relays) (t : Payouts)
    → lookup j rs ≡ some r
    → receives j (cap_pass rs t).0 ≤ cap_of_levy r
unfolding cap_pass lookup
pass_caps j r [] t h = cc
pass_caps j r ((to, q) ∷ rs) t h = elim (Bool-cases (str_eq to j)) [
  | inl s ↦
      let z = scale to (cap_of_levy q) (receives to t) t in
      let e = (eq_iff to j).0 s in
      ground (
        arith,
        e,
        pass_never_grows j rs t,
        pass_never_grows j rs z,
        scaled_within to (cap_of_levy q) t,
      )
  | inr s ↦
      ground (
        arith,
        s,
        pass_caps j r rs t,
        pass_caps j r rs (scale to (cap_of_levy q) (receives to t) t),
      )
]

loop_never_grows :
    (iter : ℕ) (j : String) (rs : Relays) (t : Payouts)
    → receives j (cap_loop iter rs t) ≤ receives j t
unfolding cap_loop
loop_never_grows zero j rs t = omega arith
loop_never_grows (suc iter) j rs t =
    ground (arith, pass_never_grows j rs t, loop_never_grows iter j rs (cap_pass rs t).0)

loop_caps :
    (iter : ℕ) (j : String) (r : EpochRelay) (rs : Relays) (t : Payouts)
    → lookup j rs ≡ some r
    → receives j (cap_loop (suc iter) rs t) ≤ cap_of_levy r
unfolding cap_loop
loop_caps iter j r rs t h =
    ground (arith, pass_caps j r rs t h, loop_never_grows iter j rs (cap_pass rs t).0)

dust_never_grows : (j : String) (m : List (String × ℕ)) → owed_to j (without_dust m) ≤ owed_to j m
unfolding without_dust owed_to
dust_never_grows j [] = omega arith
dust_never_grows j ((k, v) ∷ m) = ground (arith, dust_never_grows j m)

drop_never_grows : (j : String) (t : Payouts) → receives j (drop_dust t) ≤ receives j t
unfolding drop_dust receives
drop_never_grows j [] = omega arith
drop_never_grows j ((from, m) ∷ t) = go (without_dust m) refl (drop_never_grows j t)
  where
    go :
        (k : List (String × ℕ))
        → without_dust m ≡ k
        → receives j (drop_dust t) ≤ receives j t
        → receives j (drop_dust ((from, m) ∷ t)) ≤ owed_to j m + receives j t
    go [] e ih = ground (arith, e, ih)
    go (x ∷ xs) e ih = ground (arith, e, ih, dust_never_grows j m)

-- Whatever shares the weights give, and for every table of relays: what a relay receives from all the
-- others together is at most 80 % of its own levy. The
-- five rounds of the loop are enough: the first one reaches the cap, and no later step raises a payout.
pub payouts_are_capped :
    (share : String → String → ℕ) (j : String) (r : EpochRelay) (rs : Relays)
    → lookup j rs ≡ some r
    → receives j (compute_payouts share rs).1 ≤ r.levy_owed * 80 / 100
unfolding compute_payouts capped_payouts
payouts_are_capped share j r rs h = omega (
  arith,
  drop_never_grows j (cap_loop 5 rs (compute_shares share rs rs)),
  loop_caps 4 j r rs (compute_shares share rs rs) h,
)
