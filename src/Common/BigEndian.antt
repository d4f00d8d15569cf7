-- ===== src/Common/BigEndian.antt =====
-- Byte strings as lists of numbers, and Go's `binary.BigEndian`.
use Prim.Native.Nat.{ℕ, ◌+◌, ◌*◌, ◌/◌, ◌%◌, ◌<◌}
use mathlib.Core.Path.{◌≡◌, refl}
use mathlib.Core.Bool.{Bool, true, false, ◌&&◌}
use mathlib.Core.List.{List, [], ◌∷◌, ◌++◌}
use native.Mathlib.Omega.{arith}
use sailnet.Common.Lists.{drop}
use sailnet.Common.Tests.{◌==◌}

abbrev pub Bytes : Type 0
Bytes = List ℕ

unfoldable pub put_uint16 : ℕ → Bytes
put_uint16 n = (n / 256 % 256) ∷ (n % 256) ∷ []

unfoldable pub put_uint32 : ℕ → Bytes
put_uint32 n = (n / 16777216 % 256) ∷ (n / 65536 % 256) ∷ (n / 256 % 256) ∷ (n % 256) ∷ []

unfoldable pub put_uint64 : ℕ → Bytes
unfolding put_uint32
put_uint64 n = put_uint32 (n / 4294967296) ++ put_uint32 (n % 4294967296)

-- A slice that is too short stops a Go program; here it reads 0. Every caller checks the length.
unfoldable pub get_uint16 : Bytes → ℕ
get_uint16 (a ∷ b ∷ r) = a * 256 + b
get_uint16 _ = 0

unfoldable pub get_uint32 : Bytes → ℕ
get_uint32 (a ∷ b ∷ c ∷ d ∷ r) = a * 16777216 + b * 65536 + c * 256 + d
get_uint32 _ = 0

unfoldable pub get_uint64 : Bytes → ℕ
unfolding get_uint32
get_uint64 (a ∷ b ∷ c ∷ d ∷ r) = get_uint32 (a ∷ b ∷ c ∷ d ∷ []) * 4294967296 + get_uint32 r
get_uint64 _ = 0

-- `b[i]`.
abbrev pub byte_at : ℕ → Bytes → ℕ
byte_at i b = elim (drop i b) [ [] ↦ 0 | x ∷ r ↦ x ]

unfoldable pub bytes_eq : Bytes → Bytes → Bool
bytes_eq [] [] = true
bytes_eq (x ∷ xs) (y ∷ ys) = (x == y) && bytes_eq xs ys
bytes_eq _ _ = false

pub get-put_uint16 : (n : ℕ) (r : Bytes) → n < 65536 → get_uint16 (put_uint16 n ++ r) ≡ n
unfolding get_uint16 put_uint16
get-put_uint16 n r h = omega arith

pub get-put_uint32 : (n : ℕ) (r : Bytes) → n < 4294967296 → get_uint32 (put_uint32 n ++ r) ≡ n
unfolding get_uint32 put_uint32
get-put_uint32 n r h = omega arith

pub get-put_uint64 :
    (n : ℕ) (r : Bytes) → n < 18446744073709551616 → get_uint64 (put_uint64 n ++ r) ≡ n
unfolding get_uint64 put_uint64
get-put_uint64 n r h = omega (
  arith,
  get-put_uint32 (n / 4294967296) [] (omega arith),
  get-put_uint32 (n % 4294967296) r (omega arith),
)

pub bytes_eq_refl : (x : Bytes) → bytes_eq x x ≡ true
unfolding bytes_eq
bytes_eq_refl [] = refl
bytes_eq_refl (x ∷ xs) = ground (arith, bytes_eq_refl xs)

pub bytes_eq→eq : (x y : Bytes) → bytes_eq x y ≡ true → x ≡ y
unfolding bytes_eq
bytes_eq→eq [] [] h = refl
bytes_eq→eq [] (y ∷ ys) h = cc
bytes_eq→eq (x ∷ xs) [] h = cc
bytes_eq→eq (x ∷ xs) (y ∷ ys) h = ground (arith, bytes_eq→eq xs ys)
