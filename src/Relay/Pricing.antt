-- ===== src/Relay/Pricing.antt =====
-- sail/relay/pricing.go: the price follows demand, once per window. float64 is the parameter
-- `Float64`. Times are seconds, 0 the zero time; the byte counters are not negative.
pub mod Window
use sailnet.Common.{ℕ, ◌+◌, ◌-◌, ◌*◌, ◌%◌, ◌<◌, ◌≤◌, Bool, true, false, ◌&&◌, not, ltb, ◌==◌}
use sailnet.Common.{if◌then◌else◌, Option, none, some}

-- The operations of float64 that the code uses: a number, a decimal literal (0.8 is `literal 8 10`),
-- the product, the order, and the conversion to uint32.
pub record Float64 : Type 1 where
  pub Float : Type 0
  pub of_int : ℕ → Float
  pub literal : ℕ → ℕ → Float
  pub times : Float → Float → Float
  pub less : Float → Float → Bool
  pub to_uint32 : Float → ℕ

pub record PricingState : Type 0 where
  pub rate : ℕ
  pub start : ℕ
  pub window_start : ℕ
  pub start_bytes : ℕ
  pub prev_bytes : ℕ
  pub windows : ℕ

-- The settings and the state; the file's content is an argument of `load`, and what `save` writes
-- is the state that it returns.
pub record Pricing : Type 0 where
  pub days : ℕ
  pub min : ℕ
  pub max : ℕ
  pub st : PricingState

pub clamp : Pricing → ℕ → ℕ
clamp p r =
    let r1 = if ltb 0 p.min && ltb r p.min then p.min else r in
    let r2 = if ltb 0 p.max && ltb p.max r1 then p.max else r1 in if r2 == 0 then 1 else r2

-- `Load`, given the state that the file holds, if it can be read.
pub load : Pricing → Option PricingState → ℕ → ℕ → ℕ → Pricing × ℕ
unfolding clamp
load p saved now rate bytes_now =
    let p' = record p { days = if p.days == 0 then 10 else p.days } in
    let start_over = record p' {
      st = record {
        rate = clamp p' rate;
        start = rate;
        window_start = now;
        start_bytes = bytes_now;
        prev_bytes = 0;
        windows = 0;
      };
    } in
    elim saved [
      | none ↦ (start_over, start_over.st.rate)
      | some st ↦
          if ltb 0 st.rate && (not (st.window_start == 0) && st.start == rate)
          then (record p' { st = record st { start_bytes = bytes_now } }, clamp p' st.rate)
          else (start_over, start_over.st.rate)
    ]

module _ (f : Float64) where
  open f use {of_int, literal, times, less, to_uint32}

  -- The `switch` of `Tick`.
  pub next_rate : Pricing → ℕ → ℕ
  unfolding clamp
  next_rate p cur =
      if ltb 0 p.st.windows && ltb 0 p.st.prev_bytes
      then (if less (of_int cur) (times (literal 8 10) (of_int p.st.prev_bytes))
          then clamp p (to_uint32 (times (of_int p.st.rate) (literal 9 10)))
          else (if less (times (literal 12 10) (of_int p.st.prev_bytes)) (of_int cur)
              then clamp p
                  ((to_uint32 (times (of_int p.st.rate) (literal 103 100)) + 1) % 4294967296)
              else p.st.rate))
      else p.st.rate

  -- `Tick`: the new state, the rate to charge, and whether it just changed.
  pub tick : Pricing → Option PricingState → ℕ → ℕ → Pricing × ℕ × Bool
  unfolding load next_rate
  tick p saved now bytes_now =
      let (p', r) = load p saved now p.st.rate bytes_now in
      if p.st.window_start == 0
      then (p', r, false)
      else (if ltb now (p.st.window_start + p.days * 86400) then (p, p.st.rate, false) else (
        record p {
          st = record {
            rate = next_rate p (bytes_now - p.st.start_bytes);
            start = p.st.start;
            window_start = now;
            start_bytes = bytes_now;
            prev_bytes = bytes_now - p.st.start_bytes;
            windows = p.st.windows + 1;
          };
        },
        next_rate p (bytes_now - p.st.start_bytes),
        not (next_rate p (bytes_now - p.st.start_bytes) == p.st.rate),
      ))
