-- ===== src/Relay/Server/Ring.antt =====
-- sail/relay/server.go: the cells a hop has sent to the client, kept for a client that lost its link:
-- `sealBackward`, `wrapBackward`, `remember`, `deliver`, `park` and `handleResume`.
pub mod Kept
pub mod Resumed
pub mod Parked
use sailnet.Common.{ℕ, zero, suc, ◌-◌, ◌*◌, List, [], ◌∷◌, ◌++◌, map, Bool, true, false, not, ◌||◌}
use sailnet.Common.{ltb, leb, ◌==◌, if◌then◌else◌, length, take, drop, Option, none, some}
use sailnet.Common.{Bytes, bytes_eq, put_uint64}
use sailnet.Wire.{cmd_data, cmd_error, cmd_resumed}
use sailnet.Wire.Cell.{Cell}
use sailnet.Wire.Onion.{Aead, HopKeys, seal_backward as sealed, wrap_backward as wrapped}
use sailnet.Wire.Resume.{Blake, resume_id, verify_resume}
use sailnet.Relay.Server.Circuit.{Circuit, RingCell, destroy}

abbrev pub ring_cells : ℕ
ring_cells = 8192

pub remember : ℕ → Cell → List RingCell → List RingCell
remember seq cell ring =
    let kept = if leb ring_cells (length ring) then take (ring_cells - 1) (drop 1 ring) else ring in
    kept ++ (record { seq = seq; cell = cell } ∷ [])

-- The cell with a sealed box, and the circuit that remembers it.
abbrev pub send_box : Circuit → HopKeys × Bytes → Circuit × Cell
send_box c (keys, box) =
    let cell : Cell = record { circ_id = c.id; cmd = cmd_data; stream_id = 0; payload = box } in
    (record c { keys = keys; ring = remember keys.bwd_seq cell c.ring }, cell)

module _ (a : Aead) where
  unfoldable pub seal_backward : Circuit → ℕ → ℕ → Bytes → Circuit × Cell
  seal_backward c cmd sid text = send_box c (sealed a c.keys cmd sid text)

  unfoldable pub wrap_backward : Circuit → Bytes → Circuit × Cell
  wrap_backward c box = send_box c (wrapped a c.keys box)

-- Where `deliver` writes its cells: it waits while the link is away, and drops them on a circuit that is
-- closed.
pub data Delivery : Type 0 where
  waits dropped : Delivery
  writes : ℕ → List Cell → Delivery

pub deliver : Circuit → List Cell → Delivery
deliver c cells = elim c.link [
  | some w ↦ writes w cells
  | none ↦ if c.closed then dropped else waits
]

-- The circuits by number, and the number of each that is parked, by its id.
pub record Parks : Type 0 where
  pub circuits : ℕ → Circuit
  pub parks : List (Bytes × ℕ)

unfoldable pub find_park : Bytes → List (Bytes × ℕ) → Option ℕ
find_park id [] = none
find_park id ((j, n) ∷ ps) = let rest = find_park id ps in if bytes_eq j id then some n else rest

pub delete_park : Bytes → List (Bytes × ℕ) → List (Bytes × ℕ)
delete_park id [] = []
delete_park id ((j, n) ∷ ps) =
    let rest = delete_park id ps in if bytes_eq j id then rest else (j, n) ∷ rest

abbrev pub put_park : Bytes → ℕ → List (Bytes × ℕ) → List (Bytes × ℕ)
put_park id n ps = (id, n) ∷ delete_park id ps

abbrev pub put_circuit : ℕ → Circuit → (ℕ → Circuit) → ℕ → Circuit
put_circuit n c circuits m = if n == m then c else circuits m

-- Circuit `n` ends.
abbrev pub end_circuit : ℕ → Parks → Parks × List (ℕ × Cell)
end_circuit n s =
    let (c, cells) = destroy (s.circuits n) in
    (record s { circuits = put_circuit n c s.circuits }, cells)

module _ (h : Blake) where
  -- Beside the parks: the cells that go to other connections.
  pub park : ℕ → ℕ → Parks → Parks × List (ℕ × Cell)
  unfolding resume_id
  park now n s =
      let c = s.circuits n in
      let away = record c { link = none; parked_at = some now } in
      if c.closed || elim c.next [ none ↦ true | some w ↦ false ] then end_circuit n s else (
        record {
          circuits = put_circuit n away s.circuits;
          parks = put_park (resume_id h c.resume) n s.parks;
        },
        [],
      )

  -- The function that `park` leaves to run a minute later.
  pub unpark : ℕ → Parks → Parks × List (ℕ × Cell)
  unfolding find_park
  unpark n s =
      let c = s.circuits n in
      let id = resume_id h c.resume in
      let s' = record s { parks = delete_park id s.parks } in
      elim (find_park id s.parks) [
        | none ↦ (s, [])
        | some m ↦
            if m == n then elim c.link [ none ↦ end_circuit n s' | some w ↦ (s', []) ] else (s, [])
      ]

-- The wait for the park: `others round` is what the other connections do before the next round.
pub take_park : ℕ → (ℕ → Parks → Parks) → Bytes → Parks → Parks × Option ℕ
unfolding find_park delete_park
take_park zero others id s = (s, none)
take_park (suc rounds) others id s =
    let again = take_park rounds others id (others rounds s) in
    elim (find_park id s.parks) [
      | none ↦ again
      | some n ↦ (record s { parks = delete_park id s.parks }, some n)
    ]

-- `time.Since(time.Unix(ts, 0)).Abs() > 2*time.Minute`. A `ts` that is negative as an int64 is a far
-- time here too.
abbrev pub stale : ℕ → ℕ → Bool
stale now ts = ltb 120000000000 (now - ts * 1000000000) || ltb 120000000000 (ts * 1000000000 - now)

abbrev with_id : ℕ → Cell → Cell
with_id id cell = record cell { circ_id = id }

-- The loop over the ring: the cells to send again, and the ring with their circuit number changed.
pub again : ℕ → ℕ → List RingCell → List Cell
again recv id [] = []
again recv id (r ∷ rs) =
    let rest = again recv id rs in if ltb recv r.seq then with_id id r.cell ∷ rest else rest

pub renumber : ℕ → ℕ → List RingCell → List RingCell
renumber recv id [] = []
renumber recv id (r ∷ rs) =
    let rest = renumber recv id rs in
    if ltb recv r.seq then record r { cell = with_id id r.cell } ∷ rest else r ∷ rest

abbrev ack_cell : ℕ → HopKeys → Cell
ack_cell id keys = record {
  circ_id = id;
  cmd = cmd_resumed;
  stream_id = 0;
  payload = put_uint64 keys.fwd_win.high;
}

-- A parked circuit on its new link, and what is written there.
pub reattach : ℕ → ℕ → ℕ → Circuit → Circuit × List Cell
unfolding again renumber put_uint64
reattach id link recv c = (
  record c { id = id; link = some link; ring = renumber recv id c.ring },
  ack_cell id c.keys ∷ again recv id c.ring,
)

-- "nothing to resume".
abbrev pub refusal : Cell → Cell
refusal cell = record {
  circ_id = cell.circ_id;
  cmd = cmd_error;
  stream_id = 0;
  payload =
      110 ∷ 111 ∷ 116 ∷ 104 ∷ 105 ∷ 110 ∷ 103 ∷ 32 ∷ 116 ∷ 111 ∷ 32 ∷ 114 ∷ 101 ∷ 115 ∷ 117 ∷ 109
      ∷ 101 ∷ [];
}

module _ (h : Blake) where
  -- The circuit that was found, if the proof is its owner's and recent; else it stays parked.
  pub claim_park : ℕ → Cell → ℕ → Parks × Option ℕ → Parks × Option ℕ × List Cell
  unfolding reattach
  claim_park now cell link (s, none) = (s, none, [])
  claim_park now cell link (s, some n) =
      let c = s.circuits n in
      let kept = record s { parks = put_park (take 32 cell.payload) n s.parks } in
      elim (verify_resume h c.resume cell.payload) [
        | none ↦ (kept, none, [])
        | some (ts, recv) ↦
            if stale now ts
            then (kept, none, [])
            else (let (c', cells) = reattach cell.circ_id link recv c in
                (record s { circuits = put_circuit n c' s.circuits }, some n, cells))
      ]

  pub handle_resume : ℕ → (ℕ → Parks → Parks) → Cell → ℕ → Parks → Parks × Option ℕ × List Cell
  handle_resume now others cell link s =
      if length cell.payload == 80
      then claim_park now cell link (take_park 30 others (take 32 cell.payload) s)
      else (s, none, [])

  -- The branch of `serveConn` for a resume: `circs` is the circuits of the connection, by number.
  pub serve_resume :
      ℕ
      → (ℕ → Parks → Parks)
      → Cell
      → ℕ
      → (ℕ → Option ℕ)
      → Parks
      → (ℕ → Option ℕ) × Parks × List Cell
  unfolding handle_resume
  serve_resume now others cell link circs s =
      let (t, o, cells) = handle_resume now others cell link s in
      elim o [
        | none ↦ (circs, t, cells ++ (refusal cell ∷ []))
        | some n ↦ ((λ id. if id == cell.circ_id then some n else circs id), t, cells)
      ]
