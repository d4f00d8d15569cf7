-- ===== src/Relay/Exchange.antt =====
-- sail/relay/rpcover.go, gossip.go and the chunks of `serveConn` in server.go: requests and answers on
-- circuit 0, cut into cells. JSON and the ledger are not modelled; a body is its bytes.
pub mod Whole
pub mod Requests
use Prim.Native.String.{String}
use sailnet.Common.{
  ℕ, zero, suc, ◌+◌, ◌-◌, ◌*◌, ◌%◌, List, [], ◌∷◌, ◌++◌, Bool, true, false, not, ◌&&◌, ◌||◌,
}
use sailnet.Common.{
  ltb, leb, ◌==◌, if◌then◌else◌, length, take, drop, Option, none, some, lookup, insert, Bytes,
}
use sailnet.Wire.{cmd_error, cmd_rpc, cmd_rpc_reply, cmd_rpc_multi, payload_size}
use sailnet.Wire.Cell.{Cell}
use mathlib.Core.Option.{get_or}

abbrev pub cell_of : ℕ → ℕ → Bytes → Cell
cell_of cmd stream_id payload = record {
  circ_id = 0;
  cmd = cmd;
  stream_id = stream_id;
  payload = payload;
}

-- The loop that cuts a body into payloads of at most 1000 bytes; a round for each byte is enough.
unfoldable pub cut : ℕ → Bytes → List Bytes
cut zero body = []
cut (suc fuel) [] = []
cut (suc fuel) (x ∷ xs) =
    let n = if ltb 1000 (length (x ∷ xs)) then 1000 else length (x ∷ xs) in
    take n (x ∷ xs) ∷ cut fuel (drop n (x ∷ xs))

-- The payloads as cells, numbered from `seq`, and the empty cell that ends them.
pub cells_from : (ℕ → Bytes → Cell) → ℕ → List Bytes → List Cell
cells_from make seq [] = make seq [] ∷ []
cells_from make seq (p ∷ ps) = make seq p ∷ cells_from make (suc seq) ps

pub send_body : (ℕ → Bytes → Cell) → Bytes → List Cell
send_body make body = cells_from make 0 (cut (length body) body)

-- The cells of the three kinds; the cells of records are numbered by a uint16.
abbrev pub reply_cell : ℕ → ℕ → Bytes → Cell
reply_cell id seq p = cell_of cmd_rpc_reply id p

abbrev pub relays_cell : ℕ → Bytes → Cell
relays_cell seq p = cell_of 17 (seq % 65536) p

abbrev pub multi_cell : ℕ → ℕ → Bytes → Cell
multi_cell id seq p = cell_of cmd_rpc_multi id p

-- `reply` of `handleRPC`, `sendRelays`, and a request of `Call`.
pub rpc_reply : ℕ → Bytes → List Cell
unfolding send_body
rpc_reply id body = send_body (reply_cell id) body

pub relays_reply : Bytes → List Cell
unfolding send_body
relays_reply body = send_body relays_cell body

pub rpc_request : ℕ → Bytes → List Cell
unfolding send_body
rpc_request id body =
    if leb (length body) payload_size
    then cell_of cmd_rpc id body ∷ []
    else send_body (multi_cell id) body

-- How an answer is read: to its end, up to the last cell that is waited for, not to the end of the
-- stream, or an error cell.
pub data Answer : Type 0 where
  whole unfinished : Bytes → Answer
  broken : Answer
  refused : Bytes → Answer

abbrev pub is_empty : Bytes → Bool
is_empty [] = true
is_empty (x ∷ xs) = false

-- The loop over at most so many cells; others than those of the answer are passed over.
pub collect : (Cell → Bool) → ℕ → List Cell → Bytes → Answer
collect wants zero cells out = unfinished out
collect wants (suc n) [] out = broken
collect wants (suc n) (c ∷ cs) out =
    let skipped = collect wants n cs out in
    let more = collect wants n cs (out ++ c.payload) in
    if c.cmd == cmd_error
    then refused c.payload
    else (if not (wants c) then skipped else (if is_empty c.payload then whole out else more))

abbrev pub is_reply : ℕ → Cell → Bool
is_reply id c = c.cmd == cmd_rpc_reply && c.stream_id == id

abbrev pub is_relays : Cell → Bool
is_relays c = c.cmd == 17

-- What one attempt of `Call` comes to: the answer, an error (of the entry, or an answer that says the rate
-- is limited), or another attempt. `says_limit` is whether the text is JSON with such an error.
pub data Called : Type 0 where
  got : Bytes → Called
  limited : Called
  entry_error : Bytes → Called
  tries_again : Called

pub called : (Bytes → Bool) → Answer → Called
called says_limit (whole body) = if says_limit body then limited else got body
called says_limit (unfinished body) = tries_again
called says_limit broken = tries_again
called says_limit (refused text) = entry_error text

-- `FetchRelaysOver` goes on with what it has.
abbrev pub what_came : Answer → Option Bytes
what_came (whole body) = some body
what_came (unfinished body) = some body
what_came broken = none
what_came (refused text) = none

-- One attempt of `Call` waits for 256 cells, `FetchRelaysOver` for 64.
pub read_rpc : (Bytes → Bool) → ℕ → List Cell → Called
unfolding called
read_rpc says_limit id cells = called says_limit (collect (is_reply id) 256 cells [])

pub fetch_relays : List Cell → Option Bytes
fetch_relays cells = what_came (collect is_relays 64 cells [])

-- The requests in progress on a connection, by stream: what a cell adds, and the request it completes.
unfoldable pub part_of : ℕ → List (ℕ × Bytes) → Bytes
part_of id [] = []
part_of id ((j, b) ∷ ps) = let rest = part_of id ps in if j == id then b else rest

pub delete_part : ℕ → List (ℕ × Bytes) → List (ℕ × Bytes)
delete_part id [] = []
delete_part id ((j, b) ∷ ps) =
    let rest = delete_part id ps in if j == id then rest else (j, b) ∷ rest

pub take_part : Cell → List (ℕ × Bytes) → List (ℕ × Bytes) × Option Bytes
unfolding part_of delete_part
take_part c parts =
    let have = part_of c.stream_id parts in
    if is_empty c.payload
    then (delete_part c.stream_id parts, (if is_empty have then none else some have))
    else (if leb (length have + length c.payload) 65536
        then ((c.stream_id, have ++ c.payload) ∷ delete_part c.stream_id parts, none)
        else (parts, none))

-- The limiter of `handleRPC`: the times of the requests let through, by key.
pub recent_hits : ℕ → ℕ → List ℕ → List ℕ
recent_hits now window [] = []
recent_hits now window (t ∷ ts) =
    let rest = recent_hits now window ts in if ltb (now - t) window then t ∷ rest else rest

abbrev pub hits_of : String → List (String × List ℕ) → List ℕ
hits_of key m = get_or (lookup key m) []

pub allow : ℕ → String → ℕ → ℕ → List (String × List ℕ) → List (String × List ℕ) × Bool
unfolding recent_hits
allow now key limit window hits =
    let keep = recent_hits now window (hits_of key hits) in
    let added = insert key (keep ++ (now ∷ [])) hits in
    if leb limit (length keep)
    then (insert key keep hits, false)
    else ((if ltb 50000 (length added) then [] else added), true)
