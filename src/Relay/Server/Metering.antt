-- ===== src/Relay/Server/Metering.antt =====
-- sail/relay/server.go: the cells of a circuit that arrive together: they are peeled, metered, forwarded
-- or acted on, and end a circuit whose quota is spent. Byte counts are int64 bit patterns.
pub mod Batch
pub mod Served
pub mod Chunks
use Prim.Native.String.{String}
use text.Mathlib.Text.{◌==◌ as str_eq}
use sailnet.Common.{
  ℕ, zero, suc, ◌+◌, ◌-◌, ◌*◌, ◌/◌, List, [], ◌∷◌, ◌++◌, Bool, true, false, not, ◌&&◌, ◌||◌,
}
use sailnet.Common.{ltb, leb, ◌==◌, if◌then◌else◌, length, take, drop, Option, none, some}
use sailnet.Common.{Bytes, put_uint64, add64, sub64, mul64, div64, signed_lt, half_word}
use sailnet.Wire.{cell_size, max_data, cmd_data, cmd_error, cmd_quota, quota_low_stream}
use sailnet.Wire.Cell.{Cell}
use sailnet.Wire.Onion.{Aead, HopKeys, Peeled, terminal, onward, peel_forward, ok, err}
use sailnet.Relay.Quota.{Quota, consume, total, owner_of}
use sailnet.Relay.Server.Circuit.{Circuit, destroy}
use sailnet.Relay.Server.Ring.{Delivery, deliver, seal_backward}

-- What a batch makes the relay do, in order: a cell for the client's link, a cell of an ended or
-- exhausted circuit, cells for the next hop, bytes for the meter of a pool, and a cell for this hop.
pub data Action : Type 0 where
  delivers : Delivery → Action
  writes : ℕ → Cell → Action
  forwards : ℕ → List Cell → Action
  meters : String → ℕ → Action
  acts : ℕ → ℕ → Bytes → Action

-- `overdraftOK`: the registry is the hex keys of the relays it lists.
pub is_listed : String → List String → Bool
is_listed owner [] = false
is_listed owner (k ∷ ks) = str_eq k owner || is_listed owner ks

module _ (key : String → String) where
  pub overdraft_ok : Option (List String) → Quota → String → ℕ → Bool
  unfolding is_listed
  overdraft_ok registry q tag rem = elim registry [
    | none ↦ false
    | some relays ↦
        if signed_lt rem (sub64 0 134217728) || str_eq (owner_of key q tag) ""
        then false
        else is_listed (owner_of key q tag) relays
  ]

-- `max64(n, 0)` on an int64.
abbrev pub max_zero : ℕ → ℕ
max_zero n = if ltb n half_word then n else 0

-- "quota exhausted".
abbrev pub exhausted_text : Bytes
exhausted_text =
    113 ∷ 117 ∷ 111 ∷ 116 ∷ 97 ∷ 32 ∷ 101 ∷ 120 ∷ 104 ∷ 97 ∷ 117 ∷ 115 ∷ 116 ∷ 101 ∷ 100 ∷ []

module _ (a : Aead) where
  pub reply : Circuit → ℕ → ℕ → Bytes → Circuit × Delivery
  reply c cmd sid text =
      let (c', cell) = seal_backward a c cmd sid text in (c', deliver c' (cell ∷ []))

  -- The loop of `replyChunks`; a chunk takes a byte at least, so `fuel` of one for each is enough.
  pub chunk_loop : ℕ → Circuit → ℕ → Bytes → Circuit × List Cell
  chunk_loop zero c sid text = (c, [])
  chunk_loop (suc fuel) c sid text =
      let n = if ltb max_data (length text) then max_data else length text in
      let (c', cell) = seal_backward a c cmd_data sid (take n text) in
      let (c'', cells) = chunk_loop fuel c' sid (drop n text) in
      if length text == 0 then (c, []) else (c'', cell ∷ cells)

  pub reply_chunks : Circuit → ℕ → Bytes → Circuit × Delivery
  unfolding chunk_loop
  reply_chunks c sid text =
      let (c', cells) = chunk_loop (length text) c sid text in (c', deliver c' cells)

  -- The loop over the cells: what cannot be peeled is dropped.
  unfoldable pub peel_all : ℕ → HopKeys → List Cell → HopKeys × List Cell × List (ℕ × ℕ × Bytes)
  peel_all next_id keys [] = (keys, [], [])
  peel_all next_id keys (cell ∷ cells) =
      let (keys', r) = peel_forward a keys cell.payload in
      let (keys'', fwd, terms) = peel_all next_id keys' cells in
      elim r [
        | err e ↦ (keys'', fwd, terms)
        | ok p ↦ elim p [
          | terminal cmd sid text ↦ (keys'', fwd, (cmd, sid, text) ∷ terms)
          | onward box ↦ (
            keys'',
            record { circ_id = next_id; cmd = cmd_data; stream_id = 0; payload = box } ∷ fwd,
            terms,
          )
        ]
      ]

-- The rate is measured anew every two seconds.
pub measure : ℕ → ℕ → Circuit → Circuit
measure now n c =
    let start : ℕ = elim c.rate_at [ none ↦ now | some t ↦ t ] in
    let sum = add64 c.rate_n n in
    if leb 2000000000 (now - start)
    then record c {
      rate = div64 (mul64 sum 1000000000) (now - start);
      rate_n = 0;
      rate_at = some now;
    }
    else record c { rate_n = sum; rate_at = some start }

-- The actions for the cells of this hop.
pub act_all : List (ℕ × ℕ × Bytes) → List Action
act_all [] = []
act_all ((cmd, sid, text) ∷ ts) = acts cmd sid text ∷ act_all ts

-- `destroy`, behind what was said before it.
pub write_all : List (ℕ × Cell) → List Action
write_all [] = []
write_all ((w, cell) ∷ cs) = writes w cell ∷ write_all cs

pub end_with : Circuit → List Action → Circuit × List Action
unfolding write_all destroy
end_with c said = let (c', cells) = destroy c in (c', said ++ write_all cells)

abbrev pub exhausted_cell : Circuit → Cell
exhausted_cell c = record {
  circ_id = c.id;
  cmd = cmd_error;
  stream_id = 0;
  payload = exhausted_text;
}

-- The cells for the next hop, if there is one, and the bytes they cost at its pool.
pub forward : Option ℕ → String → List Cell → List Action
forward next acct [] = []
forward none acct (x ∷ xs) = []
forward (some w) acct (x ∷ xs) =
    forwards w (x ∷ xs) ∷ meters acct (length (x ∷ xs) * cell_size) ∷ []

-- The error cell that goes straight to the client's link.
pub notice_of : Circuit → List Action
notice_of c = elim c.link [ none ↦ [] | some w ↦ writes w (exhausted_cell c) ∷ [] ]

module _ (key : String → String) (a : Aead) where
  pub low_quota_check : ℕ → Quota → ℕ → ℕ → Circuit → Circuit × List Action
  unfolding measure reply put_uint64
  low_quota_check now q rem n c =
      let d = measure now n c in
      let (told, x) =
        reply a (record d { low_sent = true }) cmd_quota quota_low_stream
          (put_uint64 (max_zero rem)) in
      if not d.low_sent
        && (signed_lt rem (div64 (total key q d.tag) 4) || signed_lt rem (mul64 d.rate 30))
      then (told, delivers x ∷ [])
      else (d, [])

  -- The end of a circuit whose quota is spent; the client is told the first time.
  pub exhaust : Circuit → Circuit × List Action
  unfolding reply end_with notice_of
  exhaust c =
      let (told, x) = reply a (record c { exhausted = true }) cmd_error 0 exhausted_text in
      if c.exhausted then end_with c [] else end_with told (delivers x ∷ notice_of c)

  -- What is done with a batch once it is peeled: `n` is its size in bytes.
  pub charge_batch :
      Option (List String)
      → ℕ
      → ℕ
      → List Cell
      → List (ℕ × ℕ × Bytes)
      → Quota
      → Circuit
      → Circuit × Quota × List Action
  unfolding overdraft_ok low_quota_check exhaust forward act_all
  charge_batch registry now n fwd terms q c =
      let (q', rem) = consume key q c.tag n in
      let (over, farewell) = exhaust c in
      let (warned, notice) = low_quota_check now q' rem n c in
      if signed_lt rem 0 && not (overdraft_ok key registry q' c.tag rem)
      then (over, q', farewell)
      else (warned, q', notice ++ (forward warned.next warned.pool_acct fwd ++ act_all terms))

  pub handle_relay_batch :
      Option (List String) → ℕ → List Cell → Quota → Circuit → Circuit × Quota × List Action
  unfolding peel_all charge_batch
  handle_relay_batch registry now cells q c =
      let (keys, fwd, terms) = peel_all a c.next_id c.keys cells in
      let n = (length fwd + length terms) * cell_size in
      let c' = record c { keys = keys } in
      if n == 0 then (c', q, []) else charge_batch registry now n fwd terms q c'
