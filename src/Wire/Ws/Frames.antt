-- ===== src/Wire/Ws/Frames.antt =====
-- sail/wire/ws.go: a written frame is read back.
use sailnet.Common.{ℕ, zero, suc, ◌+◌, ◌%◌, ◌<◌, ◌≤◌, ◌≡◌, refl, ap, ◌∙◌, arith, ◌≢◌}
use sailnet.Common.{[], ◌∷◌, ◌++◌, Bool, true, false, append_assoc, inl, inr, ◌⊎◌}
use sailnet.Common.{leb, length, take, drop, All, length-append}
use sailnet.Common.{take-append, drop-append, get-put_uint16, get-put_uint64}
use sailnet.Common.{Bytes, byte_at, put_uint16, put_uint64}
use sailnet.Wire.Ws.{mask_from, length_field, write_frame, header_len, payload, control}
use sailnet.Wire.Ws.{read_body, read_frame, WsConn, got, read_loop, read}
use sailnet.Wire.Ws.Xor.{xor_twice}

abbrev pub IsByte : ℕ → Type 0
IsByte b = b < 256

-- A mask is four bytes.
abbrev pub IsMask : Bytes → Type 0
IsMask m = (length m ≡ 4) × All IsByte m

mask_byte : (m : Bytes) (i : ℕ) → All IsByte m → byte_at i m < 256
unfolding drop
mask_byte [] zero h = omega arith
mask_byte [] (suc i) h = omega arith
mask_byte (x ∷ r) zero h = h.0
mask_byte (x ∷ r) (suc i) h = mask_byte r i h.1

length-mask_from : (i : ℕ) (m p : Bytes) → length (mask_from i m p) ≡ length p
unfolding mask_from
length-mask_from i m [] = refl
length-mask_from i m (x ∷ r) = ap suc (length-mask_from (i + 1) m r)

-- Unmasking is masking again.
mask_from_twice :
    (i : ℕ) (m p : Bytes) → All IsByte m → All IsByte p → mask_from i m (mask_from i m p) ≡ p
unfolding mask_from
mask_from_twice i m [] hm hp = refl
mask_from_twice i m (x ∷ r) hm (hx, hr) =
    rw (
      xor_twice (byte_at (i % 4) m) x (mask_byte m (i % 4) hm) hx,
      mask_from_twice (i + 1) m r hm hr,
    )

-- `HeaderLen` is what a frame adds to its payload.
pub length-write_frame :
    (client : Bool) (mask : Bytes) (op : ℕ) (p : Bytes)
    → length mask ≡ 4
    → length (write_frame client mask op p) ≡ header_len client (length p) + length p
unfolding write_frame header_len put_uint16 put_uint64
length-write_frame client mask op p h =
    ground (arith, length-append mask (mask_from 0 mask p), length-mask_from 0 mask p)

-- The answer to a data frame, for a payload `p` in the stream `r`, whose bytes start after the mask.
module _ (client : Bool) (rand : Bytes) (op n : ℕ) where
  read_body_plain :
      (p rest : Bytes)
      → length p ≡ n
      → n ≤ 1048576
      → op ≢ 8
      → op ≢ 9
      → op ≢ 10
      → read_body client rand op false n (p ++ rest) ≡ payload p rest
  unfolding read_body
  read_body_plain p rest h fits a b c =
      ground (arith, length-append p rest, take-append n p rest h, drop-append n p rest h)

  read_body_masked :
      (mask p rest : Bytes)
      → IsMask mask
      → All IsByte p
      → length p ≡ n
      → n ≤ 1048576
      → op ≢ 8
      → op ≢ 9
      → op ≢ 10
      → read_body client rand op true n (mask ++ (mask_from 0 mask p ++ rest)) ≡ payload p rest
  unfolding read_body
  read_body_masked mask p rest m bytes h fits a b c =
      let q = mask_from 0 mask p in
      let len : length q ≡ n = length-mask_from 0 mask p ∙ h in
      ground (
        arith,
        length-append mask (q ++ rest),
        length-append q rest,
        take-append 4 mask (q ++ rest) m.0,
        drop-append 4 mask (q ++ rest) m.0,
        take-append n q rest len,
        drop-append (4 + n) (mask ++ q) rest (omega (arith, length-append {0} mask q, m.0)),
        append_assoc mask q rest,
        mask_from_twice 0 mask p m.1 bytes,
      )

length-put_uint16 : (n : ℕ) → length (put_uint16 n) ≡ 2
unfolding put_uint16
length-put_uint16 n = refl

length-put_uint64 : (n : ℕ) → length (put_uint64 n) ≡ 8
unfolding put_uint64
length-put_uint64 n = refl

-- The header that `writeFrame` writes is read back, in each of its three forms.
module _ (client : Bool) (rand : Bytes) (op : ℕ) (small : op < 16) where
  read_frame_header :
      (m n : ℕ) (r : Bytes)
      → (m ≡ 0) ⊎ (m ≡ 128)
      → n < 18446744073709551616
      → read_frame client rand ((128 + op) ∷ (length_field m n ++ r))
        ≡ read_body client rand op (leb 128 m) n r
  unfolding read_frame length_field
  read_frame_header m n r h fits = ground (
    arith,
    get-put_uint16 n r,
    get-put_uint64 n r,
    length-append (put_uint16 n) r,
    length-append (put_uint64 n) r,
    length-put_uint16 n,
    length-put_uint64 n,
    drop-append 2 (put_uint16 n) r,
    drop-append 8 (put_uint64 n) r,
  )

-- A data frame that one side writes is read back by the other: the payload, and the bytes behind the
-- frame. The payload is at most a MiB, its bytes and the four of the mask are bytes, and the opcode
-- is not that of a control frame.
pub read_frame-write_frame :
    (client reader : Bool) (mask rand : Bytes) (op : ℕ) (p rest : Bytes)
    → IsMask mask
    → All IsByte p
    → length p ≤ 1048576
    → op < 8
    → read_frame reader rand (write_frame client mask op p ++ rest) ≡ payload p rest
unfolding write_frame
read_frame-write_frame true reader mask rand op p rest m bytes fits small =
    let q = mask_from 0 mask p in
    ap (λ (t : Bytes). read_frame reader rand ((128 + op) ∷ t))
      (append_assoc (length_field 128 (length p)) (mask ++ q) rest
        ∙ ap (λ (t : Bytes). length_field 128 (length p) ++ t) (append_assoc mask q rest))
    ∙ read_frame_header reader rand op (omega arith) 128 (length p) (mask ++ (q ++ rest)) (inr refl)
        (omega arith)
    ∙ read_body_masked reader rand op (length p) mask p rest m bytes refl fits (omega arith)
        (omega arith) (omega arith)
read_frame-write_frame false reader mask rand op p rest m bytes fits small =
    ap (λ (t : Bytes). read_frame reader rand ((128 + op) ∷ t))
      (append_assoc (length_field 0 (length p)) p rest)
    ∙ read_frame_header reader rand op (omega arith) 0 (length p) (p ++ rest) (inl refl)
        (omega arith)
    ∙ read_body_plain reader rand op (length p) p rest refl fits (omega arith) (omega arith)
        (omega arith)

-- A ping is answered by a pong with the same payload, and no data of it reaches the stream.
pub read_frame_ping :
    (reader : Bool) (mask rand p rest : Bytes)
    → length p ≤ 1048576
    → read_frame reader rand (write_frame false mask 9 p ++ rest)
      ≡ control (write_frame reader rand 10 p) rest
unfolding write_frame
read_frame_ping reader mask rand p rest fits =
    ap (λ (t : Bytes). read_frame reader rand (137 ∷ t))
      (append_assoc (length_field 0 (length p)) p rest)
    ∙ read_frame_header reader rand 9 (omega arith) 0 (length p) (p ++ rest) (inl refl)
        (omega arith)
    ∙ pong
  where
    pong :
        read_body reader rand 9 false (length p) (p ++ rest)
        ≡ control (write_frame reader rand 10 p) rest
    pong =
        unfold read_body in
        ground (
          arith,
          length-append p rest,
          take-append (length p) p rest refl,
          drop-append (length p) p rest refl,
        )

-- `Read` hands out the payload of the next frame piece by piece: as much as fits the buffer now, and
-- the rest of it stays for the next call. Nothing was left of an earlier frame; the payload is not
-- empty, and the frame as in `read_frame-write_frame`.
pub read-write_frame :
    (want : ℕ) (w : WsConn) (client : Bool) (mask rand : Bytes) (op x : ℕ) (p more : Bytes)
    → IsMask mask
    → All IsByte (x ∷ p)
    → length (x ∷ p) ≤ 1048576
    → op < 8
    → w.rest ≡ []
    → w.incoming ≡ write_frame client mask op (x ∷ p) ++ more
    → read want rand w
      ≡ got (take want (x ∷ p)) (record w { rest = drop want (x ∷ p); incoming = more })
unfolding read read_loop
read-write_frame want w client mask rand op x p more m bytes fits small e f =
    ground
      (arith, read_frame-write_frame client w.client mask rand op (x ∷ p) more m bytes fits small)
