-- ===== src/Relay/Server/Pools/Refill.antt =====
-- sail/relay/server.go: how much a top-up pays, and the claims that come after it.
use sailnet.Common.{ℕ, zero, suc, ◌+◌, ◌*◌, ◌/◌, ◌≤◌, ◌<◌, ◌≡◌, ◌⊎◌, inl, inr, refl, ap, ◌∙◌, arith}
use sailnet.Common.{true, false, not, ◌&&◌, ◌||◌, some, Bytes, Bool-cases}
use sailnet.Common.{signed_lt}
use sailnet.Relay.Quota.Rates.{bytes_for_grows}
use sailnet.Token.Ops.{rate_to_raw}
use sailnet.Relay.Quota.{bytes_for}
use sailnet.Relay.Server.Pools.{
  Pool, Config, outdated, too_soon, exhausted, weigh, forget, claim_backoff, top_up_paid,
  is_prepaid, pool_size, pool_cost, left, refill_amount, equal_fold, is_empty,
}

-- A top-up is meant to pay between one and twenty base pools, whatever the rate.
pub refill_amount_bounds :
    (base rate min_rate : ℕ)
    → (base ≤ refill_amount base rate min_rate) × (refill_amount base rate min_rate ≤ base * 20)
unfolding refill_amount
refill_amount_bounds base rate min_rate = ground arith

prepaid_of :
    (c : Config) (min_rate base : ℕ) → pool_cost c min_rate ≡ some base → is_prepaid c ≡ true
unfolding pool_cost is_prepaid
prepaid_of c min_rate base e = ground (arith, e)

size_of :
    (c : Config) (min_rate base : ℕ)
    → pool_cost c min_rate ≡ some base
    → pool_size c min_rate ≡ bytes_for base (rate_to_raw min_rate)
unfolding pool_size
size_of c min_rate base e = ground (arith, e)

claim_backoff_bounds : (n : ℕ) → 600000000000 ≤ claim_backoff n
unfolding claim_backoff
claim_backoff_bounds zero = ground arith
claim_backoff_bounds (suc zero) = ground arith
claim_backoff_bounds (suc (suc zero)) = ground arith
claim_backoff_bounds (suc (suc (suc n))) = ground arith

-- A claim on a pool that is paid for and not spent, within ten minutes of its payment.
weigh_refuses :
    (c : Config) (min_rate now later : ℕ) (p : Pool)
    → signed_lt (left p) (pool_size c min_rate / 4) ≡ false
    → p.last_top ≡ some now
    → later < now + 600000000000
    → let t = weigh c min_rate later p in
      (t.1 ≡ too_soon) × (left t.0 ≡ left p) × (t.0.wiped ≡ p.wiped)
unfolding weigh
weigh_refuses c min_rate now later p e t l = ground (arith, e, t, l, claim_backoff_bounds p.claims)

forget_keeps :
    (now : ℕ) (p : Pool)
    → (left (forget now p) ≡ left p)
      × ((forget now p).last_top ≡ p.last_top)
      × ((forget now p).wiped ≡ p.wiped)
forget_keeps now p = ground arith

exhausted_refuses :
    (c : Config) (min_rate now later : ℕ) (tag : Bytes) (p : Pool)
    → is_prepaid c ≡ true
    → signed_lt (left p) (pool_size c min_rate / 4) ≡ false
    → p.last_top ≡ some now
    → later < now + 600000000000
    → let t = exhausted c min_rate tag later p in
      ((t.1 ≡ too_soon) ⊎ (t.1 ≡ outdated)) × (left t.0 ≡ left p) × (t.0.wiped ≡ p.wiped)
unfolding exhausted
exhausted_refuses c min_rate now later tag p paid e t l =
    let (a, b, d) = forget_keeps later p in
    let (x, y, z) =
      weigh_refuses c min_rate now later (forget later p)
        (ap (λ k. signed_lt k (pool_size c min_rate / 4)) a ∙ e) (b ∙ t) l in
    elim (Bool-cases (p.wiped || not (is_empty tag) && not (equal_fold tag p.tag))) [
      | inl o ↦ rw (exhausted, o) (inr refl, refl, refl)
      | inr o ↦ rw (exhausted, o, paid) (inl x, y ∙ a, z ∙ d)
    ]

left_of_paid :
    (now amount min_rate : ℕ) (hash : Bytes) (p : Pool)
    → bytes_for amount (rate_to_raw min_rate) < 9223372036854775808
    → left (top_up_paid now hash amount min_rate p) ≡ bytes_for amount (rate_to_raw min_rate)
unfolding top_up_paid
left_of_paid now amount min_rate hash p h = omega (arith, h)

-- After a payment of at least one base pool, no claim of the peer within ten minutes is believed, under
-- whatever tag and however often it claimed before: the relay keeps its estimate and owes nothing.
pub top_up_paid-exhausted :
    (c : Config) (min_rate base amount now later : ℕ) (hash tag : Bytes) (p : Pool)
    → pool_cost c min_rate ≡ some base
    → base ≤ amount
    → later < now + 600000000000
    → let paid = top_up_paid now hash amount min_rate p in
      let t = exhausted c min_rate tag later paid in
      ((t.1 ≡ too_soon) ⊎ (t.1 ≡ outdated)) × (left t.0 ≡ left paid) × (t.0.wiped ≡ false)
unfolding top_up_paid
top_up_paid-exhausted c min_rate base amount now later hash tag p e h l =
    let (grows, small) = bytes_for_grows base amount (rate_to_raw min_rate) h in
    let whole = left_of_paid now amount min_rate hash p small in
    let size = size_of c min_rate base e in
    exhausted_refuses c min_rate now later tag (top_up_paid now hash amount min_rate p)
      (prepaid_of c min_rate base e) (ground (arith, whole, size, grows, small)) refl l
