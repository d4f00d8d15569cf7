-- ===== src/Token/Ops/Codec.antt =====
-- sail/token/ops.go: what is decoded of what was encoded.
use sailnet.Common.{ℕ, ◌/◌, ◌%◌, ◌≤◌, ◌<◌, ◌≡◌, refl, sym, ap, ◌∙◌, arith}
use sailnet.Common.{[], ◌∷◌, ◌++◌, length, take}
use sailnet.Common.{
  drop, Bytes, byte_at, put_uint16, put_uint32, put_uint64, get_uint16, get_uint32,
}
use sailnet.Common.{
  get-put_uint64, get-put_uint32, append_assoc, append-nil, drop-append, take-append, take_all,
}
use sailnet.Token.Ops.{
  op_buy, op_reward, op_alive, Amount, absent, below_zero, units, unknown_opcode,
}
use sailnet.Token.Ops.{ok, err, two_128, fill_bytes, set_bytes, pack, encode, decode}
use sailnet.Token.Ops.{anchor_aux, parse_anchor_aux, register_aux, parse_register_aux}

length-put_uint64 : (n : ℕ) → length (put_uint64 n) ≡ 8
unfolding put_uint64
length-put_uint64 n = refl

length-fill_bytes : (n : ℕ) → length (fill_bytes n) ≡ 16
unfolding fill_bytes put_uint64
length-fill_bytes n = refl

set_bytes-fill_bytes : (n : ℕ) (r : Bytes) → n < two_128 → set_bytes (fill_bytes n ++ r) ≡ n
unfolding set_bytes fill_bytes
set_bytes-fill_bytes n r h =
    let hi = n / 18446744073709551616 in
    let lo = n % 18446744073709551616 in
    rw
      (
        append_assoc (put_uint64 hi) (put_uint64 lo) r,
        get-put_uint64 hi (put_uint64 lo ++ r) (omega arith),
        drop-append 8 (put_uint64 hi) (put_uint64 lo ++ r) (length-put_uint64 hi),
        get-put_uint64 lo r (omega arith),
      )
      (omega arith)

fields :
    (code : ℕ) (r : Bytes)
    → let rep : Bytes = 0x53 ∷ 0x41 ∷ 0x01 ∷ code ∷ r in
      (byte_at 0 rep ≡ 0x53)
      × (byte_at 1 rep ≡ 0x41)
      × (byte_at 2 rep ≡ 0x01)
      × (byte_at 3 rep ≡ code)
      × (drop 4 rep ≡ r)
      × (drop 20 rep ≡ drop 16 r)
unfolding drop
fields code r = (refl, refl, refl, refl, refl, refl)

-- An operation that `Encode` packs is what `Decode` reads, for the opcodes 1 to 8 and an amount of at
-- most 128 bits.
pub decode-encode :
    (code n : ℕ) (aux rep : Bytes)
    → op_buy ≤ code
    → code ≤ op_reward
    → encode (record { code = code; amount = units n; aux = aux }) ≡ ok rep
    → decode rep ≡ ok (record { code = code; amount = units n; aux = aux })
unfolding encode decode pack
decode-encode code n aux rep lo hi e = ground (
  arith,
  fields code (fill_bytes n ++ aux),
  set_bytes-fill_bytes n aux,
  drop-append 16 (fill_bytes n) aux (length-fill_bytes n),
)

-- A heartbeat that `Encode` packs, with the opcode 9 of ALIVE, is refused by `Decode`, whatever its
-- amount and its auxiliary bytes.
pub decode-encode_alive :
    (a : Amount) (aux rep : Bytes)
    → encode (record { code = op_alive; amount = a; aux = aux }) ≡ ok rep
    → decode rep ≡ err unknown_opcode
unfolding encode decode pack drop
decode-encode_alive absent aux rep e = ground arith
decode-encode_alive (units n) aux rep e = ground arith
decode-encode_alive (below_zero n) aux rep e = ground arith

-- `ParseAnchorAux` and `ParseRegisterAux` are the inverses of `AnchorAux` and `RegisterAux`, for an
-- 8-byte tag, a country code of two bytes, and numbers in the ranges of their Go types.
pub parse_anchor_aux-anchor_aux :
    (tag : Bytes) (rate : ℕ)
    → length tag ≡ 8
    → rate < 4294967296
    → parse_anchor_aux (anchor_aux tag rate) ≡ (tag, rate)
unfolding parse_anchor_aux anchor_aux
parse_anchor_aux-anchor_aux tag rate h r =
    rw
      (
        take_all 8 tag (omega arith),
        take-append 8 tag (put_uint32 rate) h,
        drop-append 8 tag (put_uint32 rate) h,
      )
      (ap (λ (t : ℕ). (tag, t))
        (sym (ap get_uint32 (append-nil (put_uint32 rate))) ∙ get-put_uint32 rate [] r))

pub parse_register_aux-register_aux :
    (a b asn min_rate flags : ℕ)
    → asn < 4294967296
    → min_rate < 4294967296
    → flags < 65536
    → parse_register_aux (register_aux (a ∷ b ∷ []) asn min_rate flags)
      ≡ (a ∷ b ∷ [], asn, min_rate, flags)
unfolding parse_register_aux register_aux put_uint32 put_uint16 get_uint32 get_uint16 take drop
parse_register_aux-register_aux a b asn min_rate flags h i j = ground arith
