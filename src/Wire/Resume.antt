-- ===== src/Wire/Resume.antt =====
-- sail/wire/cell.go: the proof by which a client reattaches a circuit. blake2b, with and without a key,
-- is a parameter; a time is its 64-bit pattern.
pub mod Proofs
use Prim.Native.Nat.{bit_or, bit_xor}
use sailnet.Common.{ℕ, zero, suc, List, [], ◌∷◌, ◌++◌, Bool, true, false, not, Option, none, some}
use sailnet.Common.{◌==◌, if◌then◌else◌, length, take, drop, Bytes, put_uint64, get_uint64}

pub record Blake : Type 0 where
  pub sum : Bytes → Bytes
  pub mac : Bytes → Bytes → Bytes

-- "sailnet-resume-id".
abbrev pub id_label : Bytes
id_label =
    115 ∷ 97 ∷ 105 ∷ 108 ∷ 110 ∷ 101 ∷ 116 ∷ 45 ∷ 114 ∷ 101 ∷ 115 ∷ 117 ∷ 109 ∷ 101 ∷ 45 ∷ 105 ∷ 100
    ∷ []

-- "sailnet-resume-v1".
abbrev pub key_label : Bytes
key_label =
    115 ∷ 97 ∷ 105 ∷ 108 ∷ 110 ∷ 101 ∷ 116 ∷ 45 ∷ 114 ∷ 101 ∷ 115 ∷ 117 ∷ 109 ∷ 101 ∷ 45 ∷ 118 ∷ 49
    ∷ []

-- The loop of `hmacEqual`, and the function.
unfoldable pub differences : Bytes → Bytes → ℕ → ℕ
differences [] b v = v
differences (x ∷ a) [] v = v
differences (x ∷ a) (y ∷ b) v = differences a b (bit_or v (bit_xor x y))

unfoldable pub hmac_equal : Bytes → Bytes → Bool
unfolding differences
hmac_equal a b = if length a == length b then differences a b 0 == 0 else false

module _ (h : Blake) where
  pub resume_key : Bytes → Bytes → Bytes
  resume_key forward backward = h.sum (key_label ++ forward ++ backward)

  unfoldable pub resume_id : Bytes → Bytes
  resume_id key = h.sum (id_label ++ key)

  pub resume_proof : Bytes → ℕ → ℕ → Bytes
  unfolding resume_id put_uint64
  resume_proof key ts recv =
      let buf = resume_id key ++ (put_uint64 ts ++ put_uint64 recv) in buf ++ h.mac key buf

  unfoldable pub verify_resume : Bytes → Bytes → Option (ℕ × ℕ)
  unfolding hmac_equal take drop get_uint64
  verify_resume key payload =
      if length payload == 80
      then (if hmac_equal (h.mac key (take 48 payload)) (drop 48 payload)
          then some (get_uint64 (drop 32 payload), get_uint64 (drop 40 payload))
          else none)
      else none
