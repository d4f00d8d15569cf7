-- ===== src/Wire/Ws.antt =====
-- sail/wire/ws.go: WebSocket binary frames. The bytes still to come are a list; what the reader
-- writes back (a pong) is part of its answer. `rand` gives the bytes of a fresh mask.
pub mod Xor
pub mod Frames
pub mod Progress
use Prim.Native.Nat.{bit_xor}
use sailnet.Common.{ℕ, zero, suc, ◌+◌, ◌-◌, ◌%◌, List, [], ◌∷◌, ◌++◌, Bool, true, false}
use sailnet.Common.{ltb, leb, ◌==◌, if◌then◌else◌, length, take, drop}
use sailnet.Common.{Bytes, byte_at, put_uint16, put_uint64, get_uint16, get_uint64}

-- `p[i] ^= mask[i%4]` from index `i` on.
pub mask_from : ℕ → Bytes → Bytes → Bytes
mask_from i mask [] = []
mask_from i mask (x ∷ r) = bit_xor x (byte_at (i % 4) mask) ∷ mask_from (i + 1) mask r

-- The length field, with the mask bit `m` (128 or 0) in its first byte.
pub length_field : ℕ → ℕ → Bytes
length_field m n =
    if ltb n 126
    then (n + m) ∷ []
    else (if ltb n 65536 then (126 + m) ∷ put_uint16 n else (127 + m) ∷ put_uint64 n)

-- `writeFrame`: the bytes of the one `Write`.
pub write_frame : Bool → Bytes → ℕ → Bytes → Bytes
unfolding length_field
write_frame client mask op p =
    (128 + op)
    ∷ (if client
        then length_field 128 (length p) ++ (mask ++ mask_from 0 mask p)
        else length_field 0 (length p) ++ p)

pub header_len : Bool → ℕ → ℕ
header_len client n =
    (if ltb n 126 then 2 else (if ltb n 65536 then 4 else 10)) + (if client then 4 else 0)

-- What `readFrame` answers: a data frame, or a control frame with the bytes written back (`nil, nil`
-- in the code), or an error; and in the first two cases the bytes behind the frame.
pub data Frame : Type 0 where
  payload : Bytes → Bytes → Frame
  control : Bytes → Bytes → Frame
  closed : Frame
  eof : Frame
  too_large : Frame

-- The body of a frame with opcode `op` and `n` bytes, once the header is read.
pub read_body : Bool → Bytes → ℕ → Bool → ℕ → Bytes → Frame
unfolding mask_from
read_body client rand op masked n r =
    if ltb 1048576 n
    then too_large
    else (if ltb (length r) (mask_len + n)
        then eof
        else (if op == 8
            then closed
            else (if op == 9
                then control (write_frame client rand 10 p) (drop (mask_len + n) r)
                else (if op == 10
                    then control [] (drop (mask_len + n) r)
                    else payload p (drop (mask_len + n) r)))))
  where
    mask_len : ℕ
    mask_len = if masked then 4 else 0

    p : Bytes
    p = if masked then mask_from 0 (take 4 r) (take n (drop 4 r)) else take n r

pub read_frame : Bool → Bytes → Bytes → Frame
unfolding read_body
read_frame client rand (h0 ∷ h1 ∷ r) =
    let op = h0 % 16 in
    let masked = leb 128 (h1 % 256) in
    let n = h1 % 128 in
    if n == 126
    then (if ltb (length r) 2
        then eof
        else read_body client rand op masked (get_uint16 r) (drop 2 r))
    else (if n == 127
        then (if ltb (length r) 8
            then eof
            else read_body client rand op masked (get_uint64 r) (drop 8 r))
        else read_body client rand op masked n r)
read_frame client rand _ = eof

-- The state of a connection: bytes of a frame not yet handed out, bytes to come, bytes written.
pub record WsConn : Type 0 where
  pub client : Bool
  pub rest : Bytes
  pub incoming : Bytes
  pub written : Bytes

pub data ReadResult : Type 0 where
  got : Bytes → WsConn → ReadResult
  failed : WsConn → ReadResult
  stuck : ReadResult

-- `Read` into a buffer of `want` bytes: the loop goes on while no byte is left of a frame.
pub read_loop : ℕ → ℕ → Bytes → WsConn → ReadResult
read_loop zero want rand w = stuck
read_loop (suc fuel) want rand w = elim w.rest [
  | x ∷ r ↦ got (take want (x ∷ r)) (record w { rest = drop want (x ∷ r) })
  | [] ↦ elim (read_frame w.client rand w.incoming) [
    | payload p more ↦ read_loop fuel want rand (record w { rest = p; incoming = more })
    | control out more ↦
        read_loop fuel want rand (record w { incoming = more; written = w.written ++ out })
    | closed ↦ failed w
    | eof ↦ failed w
    | too_large ↦ failed w
  ]
]

-- A round takes a frame of at least two bytes, or is the last.
pub read : ℕ → Bytes → WsConn → ReadResult
unfolding read_loop
read want rand w = read_loop (length w.incoming + 2) want rand w
