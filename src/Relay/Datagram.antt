-- ===== src/Relay/Datagram.antt =====
-- sail/relay/udp.go: datagrams on a stream, each behind its length in two bytes: `udpConn` at the exit,
-- `Frame` and `Deframer` at the client. The socket is the argument `accepts`: whether it takes a datagram.
pub mod Pieces
use sailnet.Common.{ℕ, zero, suc, ◌+◌, ◌-◌, ◌%◌, List, [], ◌∷◌, ◌++◌, Bool, true, false, not}
use sailnet.Common.{ltb, ◌==◌, if◌then◌else◌, length, take, drop, Option, none, some}
use sailnet.Common.{Bytes, put_uint16, get_uint16}

abbrev pub max_datagram : ℕ
max_datagram = 1472

unfoldable pub frame : Bytes → Bytes
frame d = put_uint16 (length d % 65536) ++ d

-- `Read`, for a buffer of `size` bytes: what the socket had is cut to its own buffer and then to the caller's.
pub framed_read : ℕ → Bytes → Bytes
unfolding frame
framed_read size d =
    let got = take max_datagram d in
    let n = if ltb size (length got + 2) then size - 2 else length got in
    put_uint16 (n % 65536) ++ take n got

-- What `Write` answers.
pub data Written : Type 0 where
  taken bad_frame refused : Written

-- The loop over the bytes kept: the datagrams sent and the bytes left. A round for each byte is enough.
pub write_loop : (Bytes → Bool) → ℕ → Bytes → List Bytes × Bytes × Written
write_loop accepts zero pending = ([], pending, taken)
write_loop accepts (suc fuel) pending =
    let n = get_uint16 pending in
    let d = take n (drop 2 pending) in
    let (sent, left, w) = write_loop accepts fuel (drop (2 + n) pending) in
    if ltb (length pending) 2
    then ([], pending, taken)
    else (if ltb max_datagram n
        then ([], pending, bad_frame)
        else (if ltb (length pending) (2 + n)
            then ([], pending, taken)
            else (if not (accepts d) then ([], pending, refused) else (d ∷ sent, left, w))))

pub write : (Bytes → Bool) → Bytes → Bytes → List Bytes × Bytes × Written
unfolding write_loop
write accepts pending p = write_loop accepts (length (pending ++ p)) (pending ++ p)

-- A `Deframer` is its buffer; an empty slice appended to nil is nil.
pub push : Bytes → Bytes → Bytes
push buf p = buf ++ p

pub next : Bytes → Option Bytes × Bytes
next buf =
    let n = get_uint16 buf in
    if ltb (length buf) 2
    then (none, buf)
    else (if ltb (length buf) (2 + n)
        then (none, buf)
        else ((if n == 0 then none else some (take n (drop 2 buf))), drop (2 + n) buf))
