-- ===== src/Wire/Cell.antt =====
-- sail/wire/cell.go: the fixed-size cell on the wire. `rand.Read` is the argument `rand`, which
-- gives so many bytes; an `io.Reader` is the list of the bytes still to come.
pub mod RoundTrip
use sailnet.Common.{ℕ, zero, suc, ◌+◌, ◌-◌, ◌<◌, List, [], ◌∷◌, ◌++◌, Bool, true, false}
use sailnet.Common.{ltb, ◌==◌, if◌then◌else◌, length, take, drop, replicate}
use sailnet.Common.{Bytes, byte_at, put_uint16, put_uint32, get_uint16, get_uint32}
use sailnet.Wire.{cell_size, payload_size, cmd_padding}

pub record Cell : Type 0 where
  pub circ_id : ℕ  -- uint32
  pub cmd : ℕ  -- byte
  pub stream_id : ℕ  -- uint16
  pub payload : Bytes

-- `min n payload_size`: a longer payload is cut.
abbrev pub sent_len : Bytes → ℕ
sent_len p = if ltb payload_size (length p) then payload_size else length p

pub marshal : (ℕ → Bytes) → Cell → Bytes
marshal rand c =
    put_uint32 c.circ_id
    ++ (c.cmd
        ∷ (put_uint16 c.stream_id
            ++ (put_uint16 (sent_len c.payload)
                ++ (take (sent_len c.payload) c.payload
                    ++ rand (payload_size - sent_len c.payload)))))

-- A padding cell: `&Cell{Cmd: CmdPadding}`.
pub padding_cell : (ℕ → Bytes) → Bytes
unfolding marshal
padding_cell rand =
    marshal rand (record { circ_id = 0; cmd = cmd_padding; stream_id = 0; payload = [] })

-- `eof` is the error of `io.ReadFull` on a short stream; `stuck` is no Go value: out of fuel.
pub data Read : Type 0 where
  got : Cell → Bytes → Read
  eof : Read
  bad_length : Read
  stuck : Read

-- The 1024 bytes of one cell, after the test for padding.
pub parse : Bytes → Bytes → Read
parse buf rest =
    let n = get_uint16 (drop 7 buf) in
    if ltb payload_size n
    then bad_length
    else got
        (record {
          circ_id = get_uint32 buf;
          cmd = byte_at 4 buf;
          stream_id = get_uint16 (drop 5 buf);
          payload = take n (drop 9 buf);
        })
        rest

-- The loop of `ReadCell`.
pub read_loop : ℕ → Bytes → Read
read_loop zero r = stuck
read_loop (suc fuel) r =
    let buf = take cell_size r in
    let rest = drop cell_size r in
    let again = read_loop fuel rest in
    if ltb (length r) cell_size
    then eof
    else (if byte_at 4 buf == cmd_padding then again else parse buf rest)

-- Each round takes 1024 bytes, so one round for each byte, and one more, are enough.
pub read_cell : Bytes → Read
read_cell r = read_loop (suc (length r)) r
