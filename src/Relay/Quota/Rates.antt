-- ===== src/Relay/Quota/Rates.antt =====
-- sail/relay/quota.go: what an amount buys; `BytesFor` and `RawFor` are inverse up to the rounding to a MiB.
use sailnet.Common.{ℕ, ◌+◌, ◌-◌, ◌*◌, ◌/◌, ◌≤◌, ◌<◌, ◌≡◌, arith, ap, ◌∙◌, order_cases, inl, inr}
use native.Mathlib.Nat.{mul-div_cancel, div-lt_iff_lt-mul, le-div_iff_mul-le, div-mul-le_self}
use sailnet.Common.{◌⊎◌, true, positive}
use sailnet.Relay.Quota.{bytes_for, raw_for}

mul-div_back : (m r : ℕ) → 0 < r → m * r * 1048576 / r ≡ m * 1048576
mul-div_back m r h = ap (λ (t : ℕ). t / r) (omega arith) ∙ mul-div_cancel (m * 1048576) h

-- A payment that `RawFor` sized buys, at the same rate, at least the bytes that it was sized for, and
-- less than a MiB more. The bytes are in the range that a quota holds.
pub bytes_for-raw_for :
    (bytes rate : ℕ)
    → 0 < rate
    → 0 < bytes
    → bytes < 4611686018427387904
    → (bytes ≤ bytes_for (raw_for bytes rate) rate)
      × (bytes_for (raw_for bytes rate) rate < bytes + 1048576)
unfolding bytes_for raw_for
bytes_for-raw_for bytes rate h b fits =
    ground (arith, mul-div_back ((bytes + 1048576 - 1) / 1048576) rate h)

div_le : (a b r : ℕ) → a ≤ b → 0 < r → a / r ≤ b / r
div_le a b r h p =
    (le-div_iff_mul-le {x = a / r} {y = b} p).1 (omega (arith, h, div-mul-le_self a r))

-- More raw buys a quarter at least of what less raw buys: `BytesFor` falls back to 2 ^ 62 on a number
-- that is too large.
pub bytes_for_grows :
    (raw more rate : ℕ)
    → raw ≤ more
    → (bytes_for raw rate / 4 ≤ bytes_for more rate) × (bytes_for more rate < 9223372036854775808)
unfolding bytes_for
bytes_for_grows raw more rate h = elim (order_cases rate 0) [
  | inl z ↦ ground (arith, z)
  | inr p ↦ ground (arith, div_le (raw * 1048576) (more * 1048576) rate (omega (arith, h)) p)
]

-- The whole bytes that an amount buys: 2 ^ 20 for each time it holds the rate; or 2 ^ 62 of them, when an
-- int64 cannot hold so many.
pub record IsPrice (amount rate n : ℕ) : Type 0 where
  pub priced : 1 ≤ rate
  pub whole :
      ((n * rate ≤ amount * 1048576)
        × (amount * 1048576 < (n + 1) * rate)
        × (n < 9223372036854775808))
      ⊎ ((9223372036854775808 * rate ≤ amount * 1048576) × (n ≡ 4611686018427387904))

pub bytes_for-IsPrice :
    (amount rate : ℕ)
    → positive (bytes_for amount rate) ≡ true
    → IsPrice amount rate (bytes_for amount rate)
unfolding bytes_for
bytes_for-IsPrice amount rate h =
    let some_rate : 0 < rate = ground (arith, h) in
    let n = amount * 1048576 / rate in
    let low : n * rate ≤ amount * 1048576 = div-mul-le_self (amount * 1048576) rate in
    let high : amount * 1048576 < (n + 1) * rate =
      (div-lt_iff_lt-mul {x = amount * 1048576} {y = n + 1} some_rate).0 (omega arith) in
    elim (order_cases 9223372036854775808 n) [
      | inl big ↦ record {
        priced = some_rate;
        whole = inr (
          (le-div_iff_mul-le {x = 9223372036854775808} {y = amount * 1048576} some_rate).0 big,
          ground (arith, some_rate, big),
        );
      }
      | inr fits ↦
          let same : bytes_for amount rate ≡ n = ground (arith, some_rate, fits) in
          rw same (record { priced = some_rate; whole = inl (low, high, fits) })
    ]
