-- ===== src/Relay/Pricing/Window.antt =====
-- sail/relay/pricing.go: the bounds of the price, and one change per window at most.
use sailnet.Common.{
  ℕ, suc, ◌+◌, ◌-◌, ◌*◌, ◌≤◌, ◌<◌, ◌≡◌, ◌≢◌, sym, ◌∙◌, arith, false, ◌⊎◌, inl, inr,
}
use sailnet.Common.{if◌then◌else◌, Option, none, List, [], ◌∷◌, Bool-cases, Option-cases, ◌==◌}
use sailnet.Relay.Pricing.{Float64, PricingState, Pricing, clamp, load, next_rate, tick}
use sailnet.Common.{◌%◌}

-- The floor and the ceiling are set, and in order.
pub record IsBounded (p : Pricing) : Type 0 where
  pub floor : 0 < p.min
  pub order : p.min ≤ p.max

abbrev pub InBounds : Pricing → ℕ → Type 0
InBounds p r = (p.min ≤ r) × (r ≤ p.max)

clamp-InBounds : (p : Pricing) (r : ℕ) → IsBounded p → InBounds p (clamp p r)
unfolding clamp
clamp-InBounds p r b = ground arith

abbrev with_days : Pricing → Pricing
with_days p = record p { days = if p.days == 0 then 10 else p.days }

keep : {p : Pricing} → IsBounded p → IsBounded (with_days p)
keep b = record { floor = b.floor; order = b.order }

-- `Load` answers a price within the bounds, whatever the file holds. Where no saved state is taken
-- up, the state's price is within them too.
pub load-InBounds :
    (p : Pricing) (saved : Option PricingState) (now rate bytes_now : ℕ)
    → IsBounded p
    → InBounds p (load p saved now rate bytes_now).1
unfolding load
load-InBounds p saved now rate bytes_now b =
    let at_rate : InBounds p (clamp (with_days p) rate) =
      clamp-InBounds (with_days p) rate (keep b) in
    elim (Option-cases saved) [
      | inl e ↦ rw e at_rate
      | inr (st, e) ↦
          let at_saved : InBounds p (clamp (with_days p) st.rate) =
            clamp-InBounds (with_days p) st.rate (keep b) in
          rw e (ground (arith, at_rate, at_saved))
    ]

module _ (f : Float64) where
  -- A price that is within its bounds stays within them, whatever demand does, also across the end of
  -- a window, and `Tick` answers the price of the state that it leaves.
  pub tick-InBounds :
      (p : Pricing) (saved : Option PricingState) (now bytes_now : ℕ)
      → IsBounded p
      → p.st.window_start ≢ 0
      → InBounds p p.st.rate
      → InBounds p (tick f p saved now bytes_now).0.st.rate
        × ((tick f p saved now bytes_now).1 ≡ (tick f p saved now bytes_now).0.st.rate)
  unfolding tick next_rate
  tick-InBounds p saved now bytes_now b w h =
      let cur = bytes_now - p.st.start_bytes in
      ground (
        arith,
        clamp-InBounds p (f.to_uint32 (f.times (f.of_int p.st.rate) (f.literal 9 10))) b,
        clamp-InBounds p
            ((f.to_uint32 (f.times (f.of_int p.st.rate) (f.literal 103 100)) + 1) % 4294967296) b,
      )

  -- Within a window nothing changes, and the price is not said to change.
  pub tick_within :
      (p : Pricing) (saved : Option PricingState) (now bytes_now : ℕ)
      → p.st.window_start ≢ 0
      → now < p.st.window_start + p.days * 86400
      → tick f p saved now bytes_now ≡ (p, p.st.rate, false)
  unfolding tick
  tick_within p saved now bytes_now w h = ground arith

  -- The ticks of a run, in order; each is a time and a byte count.
  pub run : Pricing → List (ℕ × ℕ) → Pricing × ℕ
  run p [] = (p, 0)
  run p ((now, bytes) ∷ r) =
      let (p', rate, changed) = tick f p none now bytes in
      let (p'', n) = run p' r in (p'', if changed then suc n else n)

  -- The time of the last tick.
  abbrev pub last_time : ℕ → List (ℕ × ℕ) → ℕ
  last_time t [] = t
  last_time t ((now, bytes) ∷ r) = last_time now r

  -- Times in order, from a time on.
  abbrev pub Ordered : ℕ → List (ℕ × ℕ) → Type 0
  Ordered t [] = Unit
  Ordered t ((now, bytes) ∷ r) = (t ≤ now) × Ordered now r

  last_time-ge : (t : ℕ) (r : List (ℕ × ℕ)) → Ordered t r → t ≤ last_time t r
  last_time-ge t [] o = omega arith
  last_time-ge t ((now, bytes) ∷ r) o = omega (arith, last_time-ge now r o.1)

  -- What a tick does to the window.
  tick_shape :
      (p : Pricing) (now bytes : ℕ)
      → p.st.window_start ≢ 0
      → ((tick f p none now bytes).0.days ≡ p.days)
        × (((tick f p none now bytes).2 ≡ false)
              × ((tick f p none now bytes).0.st.window_start ≡ p.st.window_start)
            ⊎ ((tick f p none now bytes).0.st.window_start ≡ now)
              × (p.st.window_start + p.days * 86400 ≤ now))
  unfolding tick
  tick_shape p now bytes w = ground arith

  one_more : (n d ws : ℕ) {now last : ℕ} → n * d + now ≤ last → ws + d ≤ now → suc n * d + ws ≤ last
  one_more n d ws h k = omega arith

  -- The price changes at most once per window: over any run of ticks with times in order, the changes
  -- times the length of a window fit between the start of the first window and the last tick.
  pub run_changes :
      (p : Pricing) (t : ℕ) (r : List (ℕ × ℕ))
      → p.st.window_start ≢ 0
      → p.st.window_start ≤ t
      → Ordered t r
      → (run p r).1 * (p.days * 86400) + p.st.window_start ≤ last_time t r
  unfolding run
  run_changes p t [] w h o = omega arith
  run_changes p t ((now, bytes) ∷ r) w h o =
      let q = (tick f p none now bytes).0 in
      let (same_days, cases) = tick_shape p now bytes w in
      let n = (run q r).1 in
      let rest : q.st.window_start ≢ 0
          → q.st.window_start ≤ now
          → n * (p.days * 86400) + q.st.window_start ≤ last_time now r =
        λ a b. rw same_days at (run_changes q now r a b o.1) in
      elim cases [
        | inl (unchanged, e) ↦ rw unchanged (rw e at (rest (λ z. w (sym e ∙ z)) (omega (arith, e))))
        | inr (e, long) ↦
            let tail : n * (p.days * 86400) + now ≤ last_time now r =
              rw e at (rest (λ z. absurd (omega (arith, sym e ∙ z, w))) (omega (arith, e))) in
            elim (Bool-cases (tick f p none now bytes).2) [
              | inl changed ↦ rw changed (one_more n (p.days * 86400) p.st.window_start tail long)
              | inr unchanged ↦ rw unchanged (omega arith)
            ]
      ]
