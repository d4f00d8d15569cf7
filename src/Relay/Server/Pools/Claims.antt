-- ===== src/Relay/Server/Pools/Claims.antt =====
-- sail/relay/server.go: what a peer can make the relay pay by claiming that its pool is exhausted.
use sailnet.Common.{
  ℕ, zero, suc, ◌+◌, ◌-◌, ◌*◌, ◌/◌, ◌≤◌, ◌≡◌, refl, sym, ap, ◌∙◌, arith, List, [], ◌∷◌,
}
use sailnet.Common.{true, false, not, ◌&&◌, ◌||◌, if◌then◌else◌, ltb, Option, none, some}
use sailnet.Common.{◌==◌, Bytes, Bool-cases, inl, inr, ◌⊎◌, signed_lt}
use mathlib.Core.Path.{subst}
use sailnet.Relay.PriceCap.{Peer}
use sailnet.Relay.Server.Pools.{
  Pool, Config, Verdict, outdated, too_soon, agreed, charged, hour, minute, meter, measure, ensure,
  exhausted, weigh, wipe, forget, is_early, claim_backoff, claim_forget, since_over, since_under,
  top_up_paid, top_up_ended, is_prepaid, pool_size, equal_fold, left, is_empty,
}

-- What happens to a pool: bytes sent through it, a claim of the peer, a call that wants it filled, a
-- payment that went out, and the end of a top-up. Each but the last has its time.
pub data Event : Type 0 where
  sends : Option Peer → ℕ → ℕ → Event
  claimed : ℕ → Bytes → ℕ → Event
  wants : ℕ → ℕ → Event
  paid : Bytes → ℕ → ℕ → ℕ → Event
  ended : Event

is_charged : Verdict → ℕ
is_charged outdated = 0
is_charged too_soon = 0
is_charged agreed = 0
is_charged charged = 1

module _ (c : Config) where
  pub step : Pool → Event → Pool
  step p (sends rel n now) = (meter c rel now n p).0
  step p (claimed min_rate tag now) = (exhausted c min_rate tag now p).0
  step p (wants min_rate now) = (ensure c min_rate now p).0
  step p (paid hash amount min_rate now) = top_up_paid now hash amount min_rate p
  step p ended = top_up_ended p

  cost : Pool → Event → ℕ
  unfolding is_charged
  cost p (sends rel n now) = 0
  cost p (claimed min_rate tag now) = is_charged (exhausted c min_rate tag now p).1
  cost p (wants min_rate now) = 0
  cost p (paid hash amount min_rate now) = 0
  cost p ended = 0

  -- How many claims of a run are paid for against our own count.
  pub charges : Pool → List Event → ℕ
  unfolding step cost
  charges p [] = 0
  charges p (e ∷ es) = cost p e + charges (step p e) es

-- The claims come in the order of their times, the first not before `lo` and the last not after `hi`.
abbrev pub InOrder : ℕ → ℕ → List Event → Type 0
InOrder lo hi [] = lo ≤ hi
InOrder lo hi (claimed min_rate tag now ∷ es) = (lo ≤ now) × InOrder now hi es
InOrder lo hi (sends rel n now ∷ es) = InOrder lo hi es
InOrder lo hi (wants min_rate now ∷ es) = InOrder lo hi es
InOrder lo hi (paid hash amount min_rate now ∷ es) = InOrder lo hi es
InOrder lo hi (ended ∷ es) = InOrder lo hi es

-- How far payments may be ahead of one for each hour, after so many: in minutes 0, 60, 100 and 120.
abbrev ahead : ℕ → ℕ
ahead n =
    if n == 0
    then 0
    else (if n == 1 then 60 * minute else (if n == 2 then 100 * minute else 120 * minute))

-- At `now`, with `n` claims paid for since `start`.
abbrev Paced : ℕ → ℕ → ℕ → Pool → Type 0
Paced start now n p =
    (start ≤ now)
    × (((p.claims ≡ 0) × (n * hour + start ≤ now))
        ⊎ ((t : ℕ) × (p.claim_at ≡ some t)
            × (t ≤ now)
            × (1 ≤ p.claims)
            × (n * hour + start ≤ t + ahead p.claims)))

backoff_pays : (n : ℕ) → 1 ≤ n → ahead n + hour ≤ claim_backoff n + ahead (suc n)
unfolding claim_backoff
backoff_pays zero h = absurd (omega arith)
backoff_pays (suc zero) h = ground arith
backoff_pays (suc (suc zero)) h = ground arith
backoff_pays (suc (suc (suc n))) h = ground arith

Paced-later :
    (start now later n : ℕ) (p : Pool) → now ≤ later → Paced start now n p → Paced start later n p
Paced-later start now later n p l (s, inl (z, h)) =
    (omega (arith, s, l), inl (z, omega (arith, h, l)))
Paced-later start now later n p l (s, inr (t, a, b, o, h)) =
    (omega (arith, s, l), inr (t, a, omega (arith, b, l), o, h))

ahead_bounds : (n : ℕ) → ahead n ≤ 120 * minute
ahead_bounds n = ground arith

forget_old :
    (now : ℕ) (p : Pool)
    → 1 ≤ p.claims
    → since_over now p.claim_at claim_forget ≡ true
    → forget now p ≡ record p { claims = 0 }
forget_old now p o e = rw e (ground (arith, o))

forget_new :
    (now : ℕ) (p : Pool) → since_over now p.claim_at claim_forget ≡ false → forget now p ≡ p
forget_new now p e = rw e (ground arith)

forget-Paced : (start now n : ℕ) (p : Pool) → Paced start now n p → Paced start now n (forget now p)
forget-Paced start now n p (s, inl (z, h)) = (s, inl (ground (arith, z), h))
forget-Paced start now n p (s, inr (t, a, b, o, h)) =
    elim (Bool-cases (ltb claim_forget (now - t))) [
      | inl e ↦
          let old = ap (λ k. since_over now k claim_forget) a ∙ e in
          let enough : n * hour + start ≤ now = ground (arith, h, e, ahead_bounds p.claims) in
          subst (Paced start now n) (sym (forget_old now p o old)) (s, inl (refl, enough))
      | inr e ↦
          let new = ap (λ k. since_over now k claim_forget) a ∙ e in
          subst (Paced start now n) (sym (forget_new now p new)) (s, inr (t, a, b, o, h))
    ]

charge-Paced :
    (start now n : ℕ) (p : Pool)
    → is_early now p ≡ false
    → Paced start now n p
    → Paced start now (suc n) (record p { claims = suc p.claims; claim_at = some now })
charge-Paced start now n p e (s, inl (z, h)) =
    (s, inr (now, refl, omega arith, omega arith, ground (arith, h, z)))
charge-Paced start now n p e (s, inr (t, a, b, o, h)) =
    let late : since_under now (some t) (claim_backoff p.claims) ≡ false = ground (arith, a, e) in
    (
      s,
      inr (
        now,
        refl,
        omega arith,
        omega arith,
        ground (arith, h, b, late, backoff_pays p.claims o),
      ),
    )

-- The claims of two pools are the same.
abbrev SameClaims : Pool → Pool → Type 0
SameClaims p q = (q.claims ≡ p.claims) × (q.claim_at ≡ p.claim_at)

SameClaims-Paced :
    (start now n : ℕ) (p q : Pool) → SameClaims p q → Paced start now n p → Paced start now n q
SameClaims-Paced start now n p q (a, b) (s, inl (z, h)) = (s, inl (a ∙ z, h))
SameClaims-Paced start now n p q (a, b) (s, inr (t, x, y, o, h)) = (
  s,
  inr (t, b ∙ x, y, omega (arith, a, o), subst (λ k. n * hour + start ≤ t + ahead k) (sym a) h),
)

top_up_paid-SameClaims :
    (now : ℕ) (hash : Bytes) (amount min_rate : ℕ) (p : Pool)
    → SameClaims p (top_up_paid now hash amount min_rate p)
unfolding top_up_paid
top_up_paid-SameClaims now hash amount min_rate p = (refl, refl)

top_up_ended-SameClaims : (p : Pool) → SameClaims p (top_up_ended p)
unfolding top_up_ended
top_up_ended-SameClaims p = (refl, refl)

module _ (c : Config) where
  weigh-Paced :
      (start now n min_rate : ℕ) (p : Pool)
      → Paced start now n p
      → Paced start now (n + is_charged (weigh c min_rate now p).1) (weigh c min_rate now p).0
  unfolding weigh wipe is_charged
  weigh-Paced start now n min_rate p h =
      let more : n + 1 ≡ suc n = omega arith in
      elim (Bool-cases (signed_lt (left p) (pool_size c min_rate / 4) || is_early now p)) [
        | inl e ↦
            let free : n + is_charged (weigh c min_rate now p).1 ≡ n = ground (arith, e) in
            let s : SameClaims p (weigh c min_rate now p).0 = ground (arith, e) in
            subst (λ k. Paced start now k (weigh c min_rate now p).0) (sym free)
              (SameClaims-Paced start now n p (weigh c min_rate now p).0 s h)
        | inr e ↦
            let ours : signed_lt (left p) (pool_size c min_rate / 4) ≡ false = ground (arith, e) in
            let late : is_early now p ≡ false = ground (arith, e) in
            let q = record p { claims = suc p.claims; claim_at = some now } in
            rw (weigh, ours, late, wipe, is_charged, more)
              (SameClaims-Paced start now (suc n) q (wipe c q) (refl, refl)
                (charge-Paced start now n p late h))
      ]

  exhausted-Paced :
      (start now n min_rate : ℕ) (tag : Bytes) (p : Pool)
      → Paced start now n p
      → Paced start now
          (n + is_charged (exhausted c min_rate tag now p).1)
          (exhausted c min_rate tag now p).0
  unfolding exhausted wipe is_charged
  exhausted-Paced start now n min_rate tag p h =
      let same : n + 0 ≡ n = omega arith in
      let is_other = not (is_empty tag) && not (equal_fold tag p.tag) in
      elim (Bool-cases (p.wiped || is_other)) [
        | inl e ↦ rw (exhausted, e, is_charged, same) h
        | inr e ↦ elim (Bool-cases (is_prepaid c)) [
          | inl d ↦
              rw (exhausted, e, d)
                (weigh-Paced start now n min_rate (forget now p) (forget-Paced start now n p h))
          | inr d ↦
              rw (exhausted, e, d, is_charged, same)
                (SameClaims-Paced start now n p (wipe c p) (refl, refl) h)
        ]
      ]

  meter-SameClaims :
      (rel : Option Peer) (now n : ℕ) (p : Pool) → SameClaims p (meter c rel now n p).0
  unfolding meter measure
  meter-SameClaims none now n p = ground arith
  meter-SameClaims (some r) now n p = ground arith

  ensure-SameClaims : (min_rate now : ℕ) (p : Pool) → SameClaims p (ensure c min_rate now p).0
  unfolding ensure
  ensure-SameClaims min_rate now p = ground arith

  charges-Paced :
      (start now hi n : ℕ) (p : Pool) (es : List Event)
      → Paced start now n p
      → InOrder now hi es
      → (n + charges c p es) * hour + start ≤ hi + 120 * minute
  unfolding charges step cost
  charges-Paced start now hi n p [] (s, inl (z, h)) o = omega (arith, h, o)
  charges-Paced start now hi n p [] (s, inr (t, a, b, l, h)) o =
      omega (arith, h, o, b, ahead_bounds p.claims)
  charges-Paced start now hi n p (sends rel k later ∷ es) h o =
      let q = (meter c rel later k p).0 in
      let same = SameClaims-Paced start now n p q (meter-SameClaims rel later k p) h in
      omega (arith, charges-Paced start now hi n q es same o)
  charges-Paced start now hi n p (wants min_rate later ∷ es) h o =
      let q = (ensure c min_rate later p).0 in
      let same = SameClaims-Paced start now n p q (ensure-SameClaims min_rate later p) h in
      omega (arith, charges-Paced start now hi n q es same o)
  charges-Paced start now hi n p (paid hash amount min_rate later ∷ es) h o =
      let q = top_up_paid later hash amount min_rate p in
      let same =
        SameClaims-Paced start now n p q (top_up_paid-SameClaims later hash amount min_rate p) h in
      omega (arith, charges-Paced start now hi n q es same o)
  charges-Paced start now hi n p (ended ∷ es) h o =
      let q = top_up_ended p in
      let same = SameClaims-Paced start now n p q (top_up_ended-SameClaims p) h in
      omega (arith, charges-Paced start now hi n q es same o)
  charges-Paced start now hi n p (claimed min_rate tag later ∷ es) h (l, o) =
      let (q, v) = exhausted c min_rate tag later p in
      let then_on =
        exhausted-Paced start later n min_rate tag p (Paced-later start now later n p l h) in
      omega (arith, charges-Paced start later hi (n + is_charged v) q es then_on o)

  -- A peer that keeps claiming its pool is exhausted, while our own count says otherwise, is paid for its
  -- claims at most once an hour and twice more: for every run from a pool with no such claim so far, in
  -- which its claims come in the order of their times between `start` and `hi`, whatever sends, refills
  -- and payments lie between them, and through any number of weeks after which the backoff starts over.
  pub charges_bounds :
      (start hi : ℕ) (p : Pool) (es : List Event)
      → p.claims ≡ 0
      → InOrder start hi es
      → charges c p es * 3600000000000 + start ≤ hi + 2 * 3600000000000
  charges_bounds start hi p es z o =
      omega (arith, charges-Paced start start hi 0 p es (omega arith, inl (z, omega arith)) o)
