-- ===== src/Wire/Ws/Xor.antt =====
-- `^` and `|` on bytes, by going through all of them: masking twice with one byte gives the byte back.
use Prim.Native.Nat.{bit_xor}
use sailnet.Common.{ℕ, zero, suc, ◌<◌, ◌≡◌, refl, arith, Bool, true, ◌&&◌, ◌==◌, ==_iff}
use sailnet.Common.{Bool-cases, inl, inr}

-- Whether `test` holds from 0 up to, and without, a bound.
unfoldable pub passes : (ℕ → Bool) → ℕ → Bool
passes test zero = true
passes test (suc bound) = passes test bound && test bound

passes_at :
    (test : ℕ → Bool) (bound byte : ℕ) → byte < bound → passes test bound ≡ true → test byte ≡ true
unfolding passes
passes_at test zero byte less ok = absurd (omega arith)
passes_at test (suc bound) byte less ok = elim (Bool-cases (byte == bound)) [
  | inl last ↦ ground (arith, ==_iff byte bound)
  | inr earlier ↦ passes_at test bound byte (ground (arith, earlier)) (ground (arith, ok))
]

-- A test of two bytes that holds for all of them holds for these two.
pub read_table :
    (test : ℕ → ℕ → Bool) (a b : ℕ)
    → a < 256
    → b < 256
    → passes (λ x. passes (test x) 256) 256 ≡ true
    → test a b ≡ true
read_table test a b less_a less_b table =
    passes_at (test a) 256 b less_b (passes_at (λ x. passes (test x) 256) 256 a less_a table)

comes_back : ℕ → ℕ → Bool
comes_back key byte = bit_xor (bit_xor byte key) key == byte

all_come_back : passes (λ key. passes (comes_back key) 256) 256 ≡ true
unfolding passes comes_back
all_come_back = refl

pub xor_twice : (m x : ℕ) → m < 256 → x < 256 → bit_xor (bit_xor x m) m ≡ x
unfolding comes_back
xor_twice m x hm hx = (==_iff _ x).0 (read_table comes_back m x hm hx all_come_back)
