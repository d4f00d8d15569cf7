-- ===== src/Common/Words.antt =====
-- Machine words: Go's int64 as its two's-complement bit pattern.
use Prim.Native.Nat.{ℕ, ◌+◌, ◌-◌, ◌*◌, ◌/◌, ◌%◌}
use mathlib.Core.Bool.{Bool, ◌&&◌}
use sailnet.Common.Tests.{ltb, if◌then◌else◌}

abbrev pub word : ℕ
word = 18446744073709551616

abbrev pub half_word : ℕ
half_word = 9223372036854775808

abbrev pub add64 : ℕ → ℕ → ℕ
add64 a b = (a + b) % word

abbrev pub sub64 : ℕ → ℕ → ℕ
sub64 a b = (a + word - b) % word

-- `n > 0` on an int64.
abbrev pub positive : ℕ → Bool
positive n = ltb 0 n && ltb n half_word

-- `a < b` on int64s: the order of the patterns with the sign bit flipped.
abbrev pub signed_lt : ℕ → ℕ → Bool
signed_lt a b = ltb ((a + half_word) % word) ((b + half_word) % word)

-- `a * b` and, for a divisor `b` that is positive, `a / b` on int64s: the quotient is cut towards 0.
abbrev pub mul64 : ℕ → ℕ → ℕ
mul64 a b = a * b % word

abbrev pub div64 : ℕ → ℕ → ℕ
div64 a b = if ltb a half_word then a / b else (word - (word - a) / b) % word
