-- ===== src/Token/Ops.antt =====
-- sail/token/ops.go: an operation packed into the 32 bytes of a representative.
pub mod Codec
use sailnet.Common.{
  ℕ, ◌+◌, ◌*◌, ◌/◌, ◌%◌, ◌^◌, List, [], ◌∷◌, ◌++◌, Bool, true, false, ◌&&◌, ◌||◌, not,
}
use sailnet.Common.{ltb, ◌==◌, if◌then◌else◌, length, take, drop, replicate, Bytes, byte_at}
use sailnet.Common.{put_uint16, put_uint32, put_uint64, get_uint16, get_uint32, get_uint64}

abbrev pub op_buy : ℕ
op_buy = 1

abbrev pub op_register : ℕ
op_register = 4

abbrev pub op_descriptor : ℕ
op_descriptor = 5

abbrev pub op_nop : ℕ
op_nop = 7

abbrev pub op_reward : ℕ
op_reward = 8

abbrev pub op_alive : ℕ
op_alive = 9

-- 1e20 raw, and `RateToRaw`.
abbrev pub rate_unit_raw : ℕ
rate_unit_raw = 10 ^ 20

pub rate_to_raw : ℕ → ℕ
rate_to_raw rate = rate * rate_unit_raw

-- A `*big.Int`: nil, a number, or a number below zero.
pub data Amount : Type 0 where
  absent : Amount
  units : ℕ → Amount
  below_zero : ℕ → Amount

pub record Op : Type 0 where
  pub code : ℕ
  pub amount : Amount
  pub aux : Bytes

pub data Error : Type 0 where
  not_sail unknown_opcode out_of_range : Error

pub data Result {ℓ} (A : Type ℓ) : Type ℓ where
  ok : A → Result A
  err : Error → Result A

abbrev pub two_128 : ℕ
two_128 = 340282366920938463463374607431768211456

-- `FillBytes` into 16 bytes, and `SetBytes`.
unfoldable pub fill_bytes : ℕ → Bytes
fill_bytes n = put_uint64 (n / 18446744073709551616) ++ put_uint64 (n % 18446744073709551616)

pub set_bytes : Bytes → ℕ
set_bytes b = get_uint64 b * 18446744073709551616 + get_uint64 (drop 8 b)

unfoldable pub pack : ℕ → ℕ → Bytes → Result Bytes
unfolding fill_bytes
pack code n aux =
    if ltb n two_128
    then ok (0x53 ∷ 0x41 ∷ 0x01 ∷ code ∷ (fill_bytes n ++ aux))
    else err out_of_range

unfoldable pub encode : Op → Result Bytes
unfolding pack
encode op = elim op.amount [
  | absent ↦ pack op.code 0 op.aux
  | units n ↦ pack op.code n op.aux
  | below_zero n ↦ err out_of_range
]

pub decode : Bytes → Result Op
unfolding set_bytes
decode rep =
    if not (byte_at 0 rep == 0x53) || not (byte_at 1 rep == 0x41) || not (byte_at 2 rep == 0x01)
    then err not_sail
    else (if ltb (byte_at 3 rep) op_buy || ltb op_reward (byte_at 3 rep)
        then err unknown_opcode
        else ok (record {
          code = byte_at 3 rep;
          amount = units (set_bytes (drop 4 rep));
          aux = drop 20 rep;
        }))

pub anchor_aux : Bytes → ℕ → Bytes
anchor_aux circuit_tag rate = take 8 circuit_tag ++ put_uint32 rate

pub parse_anchor_aux : Bytes → Bytes × ℕ
parse_anchor_aux a = (take 8 a, get_uint32 (drop 8 a))

-- The country code is a string; a shorter one than two bytes leaves two zeros.
pub country_bytes : Bytes → Bytes
country_bytes (a ∷ b ∷ r) = a ∷ b ∷ []
country_bytes _ = 0 ∷ 0 ∷ []

pub register_aux : Bytes → ℕ → ℕ → ℕ → Bytes
unfolding country_bytes
register_aux cc asn min_rate flags =
    country_bytes cc ++ (put_uint32 asn ++ (put_uint32 min_rate ++ put_uint16 flags))

pub parse_register_aux : Bytes → Bytes × ℕ × ℕ × ℕ
parse_register_aux a =
    (take 2 a, get_uint32 (drop 2 a), get_uint32 (drop 6 a), get_uint16 (drop 10 a))
