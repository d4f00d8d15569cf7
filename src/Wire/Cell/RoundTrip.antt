-- ===== src/Wire/Cell/RoundTrip.antt =====
-- sail/wire/cell.go: what `ReadCell` reads back of what `Marshal` wrote.
use sailnet.Common.{if◌then◌else◌, ltb, ◌==◌, false}
use sailnet.Common.{byte_at, ◌/◌, ◌*◌, ◌%◌}
use sailnet.Common.{ℕ, zero, suc, ◌+◌, ◌-◌, ◌≤◌, ◌<◌, ◌≡◌, ◌≢◌, refl, ◌∙◌, arith}
use sailnet.Common.{[], ◌++◌, Bool-cases, inl, inr}
use sailnet.Common.{
  length, take, drop, length-append, length-take, length-drop, take-append, take_all,
}
use sailnet.Common.{drop-append, Bytes, put_uint16, put_uint32, get_uint16, get_uint32}
use sailnet.Wire.{cell_size, payload_size, cmd_padding}
use sailnet.Wire.Cell.{Cell, sent_len, marshal, padding_cell, got, stuck}
use sailnet.Wire.Cell.{parse, read_loop, read_cell}

-- The ranges of the Go types, and a payload that fits.
pub record IsSendable (c : Cell) : Type 0 where
  pub circ : c.circ_id < 4294967296
  pub stream : c.stream_id < 65536
  pub fits : length c.payload ≤ payload_size

length-put_uint32 : (n : ℕ) → length (put_uint32 n) ≡ 4
unfolding put_uint32
length-put_uint32 n = refl

length-put_uint16 : (n : ℕ) → length (put_uint16 n) ≡ 2
unfolding put_uint16
length-put_uint16 n = refl

module _ (rand : ℕ → Bytes) (fills : (k : ℕ) → length (rand k) ≡ k) where
  -- Every marshalled cell is exactly 1024 bytes long, whatever its payload.
  pub length-marshal : (c : Cell) → length (marshal rand c) ≡ cell_size
  unfolding marshal put_uint16 put_uint32
  length-marshal c =
      let n = sent_len c.payload in
      ground (
        arith,
        length-append (take n c.payload) (rand (payload_size - n)),
        length-take n c.payload,
        fills (payload_size - n),
      )

  fits_whole : (p : Bytes) → length p ≤ payload_size → sent_len p ≡ length p
  fits_whole p h = ground arith

  payload_back :
      (p : Bytes)
      → length p ≤ payload_size
      → take (sent_len p) (take (sent_len p) p ++ rand (payload_size - sent_len p)) ≡ p
  payload_back p h =
      rw (fits_whole p h, take_all (length p) p (omega arith))
        (take-append (length p) p (rand (payload_size - length p)) refl)

  -- The parser gives back a marshalled cell.
  parse-marshal :
      (c : Cell) (rest : Bytes) → IsSendable c → parse (marshal rand c) rest ≡ got c rest
  unfolding marshal parse put_uint16 put_uint32 drop get_uint16 get_uint32
  parse-marshal c rest h =
      let n = sent_len c.payload in
      let whole : n ≡ length c.payload = fits_whole c.payload h.fits in
      let n_back : n / 256 % 256 * 256 + n % 256 ≡ n = omega arith in
      let body = payload_back c.payload h.fits in ground (arith, whole, n_back, body)

  cmd_back : (c : Cell) → byte_at 4 (marshal rand c) ≡ c.cmd
  unfolding marshal put_uint32 drop
  cmd_back c = refl

  read_loop-marshal :
      (fuel : ℕ) (c : Cell) (rest : Bytes)
      → read_loop (suc fuel) (marshal rand c ++ rest)
        ≡ (if c.cmd == cmd_padding then read_loop fuel rest else parse (marshal rand c) rest)
  unfolding read_loop
  read_loop-marshal fuel c rest =
      let size = length-marshal c in
      let long : ltb (length (marshal rand c ++ rest)) cell_size ≡ false =
        ground (arith, size, length-append (marshal rand c) rest) in
      rw (
        long,
        take-append cell_size (marshal rand c) rest size,
        drop-append cell_size (marshal rand c) rest size,
        cmd_back c,
      )

  -- `ReadCell` gives back the cell that `Marshal` wrote, and leaves the bytes behind it unread. The
  -- cell's fields are in the ranges of their Go types, its payload fits, and it is no padding cell.
  pub read_cell-marshal :
      (c : Cell) (rest : Bytes)
      → IsSendable c
      → c.cmd ≢ cmd_padding
      → read_cell (marshal rand c ++ rest) ≡ got c rest
  unfolding read_cell
  read_cell-marshal c rest h p =
      ground
        (arith, read_loop-marshal (length (marshal rand c ++ rest)) c rest, parse-marshal c rest h)

  -- `read_cell` is the same whatever fuel it is given beyond the bytes that are there.
  read_loop_fuel :
      (f g : ℕ) (r : Bytes) → length r < f → length r < g → read_loop f r ≡ read_loop g r
  unfolding read_loop
  read_loop_fuel zero g r h k = absurd (omega arith)
  read_loop_fuel (suc f) zero r h k = absurd (omega arith)
  read_loop_fuel (suc f) (suc g) r h k =
      ground (arith, length-drop cell_size r, read_loop_fuel f g (drop cell_size r))

  -- A padding cell in front of a stream changes nothing of what `ReadCell` reads.
  pub read_cell-padding : (rest : Bytes) → read_cell (padding_cell rand ++ rest) ≡ read_cell rest
  unfolding read_cell padding_cell
  read_cell-padding rest =
      let pad : Cell = record { circ_id = 0; cmd = cmd_padding; stream_id = 0; payload = [] } in
      let n = length (marshal rand pad ++ rest) in
      read_loop-marshal n pad rest
      ∙ read_loop_fuel n (suc (length rest)) rest
          (omega (arith, length-append (marshal rand pad) rest, length-marshal pad)) (omega arith)

parse-ne-stuck : (b r : Bytes) → parse b r ≢ stuck
unfolding parse
parse-ne-stuck b r = λ e. ground arith

read_loop-ne-stuck : (fuel : ℕ) (r : Bytes) → length r < fuel → read_loop fuel r ≢ stuck
unfolding read_loop
read_loop-ne-stuck zero r h = absurd (omega arith)
read_loop-ne-stuck (suc fuel) r h =
    let tail_ok = read_loop-ne-stuck fuel (drop cell_size r) in
    elim (Bool-cases (ltb (length r) cell_size)) [
      | inl short ↦ rw short (λ e. cc)
      | inr long ↦ elim (Bool-cases (byte_at 4 (take cell_size r) == cmd_padding)) [
        | inl pad ↦ rw (long, pad) (tail_ok (ground (arith, length-drop cell_size r)))
        | inr cell ↦ rw (long, cell) (parse-ne-stuck (take cell_size r) (drop cell_size r))
      ]
    ]

-- `ReadCell` always answers: on every byte stream the loop over padding cells ends, with a cell, an
-- end-of-stream error or a bad-length error.
pub read_cell-ne-stuck : (r : Bytes) → read_cell r ≢ stuck
unfolding read_cell
read_cell-ne-stuck r = read_loop-ne-stuck (suc (length r)) r (omega arith)
