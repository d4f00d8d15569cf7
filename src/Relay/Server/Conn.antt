-- ===== src/Relay/Server/Conn.antt =====
-- sail/relay/server.go: the loop of `serveConn` over the cells of a connection. The cells come in bursts:
-- a burst is what the reader's buffer holds when its first cell is read. What is done with a cell is
-- the answer; the circuits and bridges of the connection are tests on a circuit's number.
pub mod Order
use sailnet.Common.{
  ℕ, List, [], ◌∷◌, ◌++◌, Bool, true, false, not, ◌&&◌, ◌||◌, ltb, leb, ◌==◌, if◌then◌else◌, length,
}
use sailnet.Wire.{cmd_create, cmd_data, cmd_destroy, cmd_home_hello, cmd_padding, cmd_resume}
use sailnet.Wire.Cell.{Cell}

-- A batch for `handleRelayBatch`, a cell for a bridge to a home node, and a cell for one of the other
-- branches of the loop.
pub data Handled : Type 0 where
  relays : ℕ → List Cell → Handled
  bridges : Cell → Handled
  dispatches : Cell → Handled

module _ (has_circuit : ℕ → Bool) (has_bridge : ℕ → Bool) where
  -- A cell read behind a batch that is not of its circuit, or not a data cell.
  pub stray : Cell → List Handled
  stray m =
      if m.cmd == cmd_padding
      then []
      else (if has_circuit m.circ_id && m.cmd == cmd_data
          then (if has_bridge m.circ_id then bridges m ∷ [] else relays m.circ_id (m ∷ []) ∷ [])
          else [])

  -- The loop that fills a batch of circuit `id`, and the batch at its end; and what the buffer still has.
  pub gather : ℕ → List Cell → List Cell → List Handled × List Cell
  unfolding stray
  gather id batch [] = ((if length batch == 0 then [] else relays id batch ∷ []), [])
  gather id batch (m ∷ ms) =
      let (flushed, rest) = gather id [] ms in
      let (filled, rest') = gather id (batch ++ (m ∷ [])) ms in
      if leb 64 (length batch)
      then (relays id batch ∷ [], m ∷ ms)
      else (if not (m.circ_id == id) || not (m.cmd == cmd_data)
          then (relays id batch ∷ (stray m ++ flushed), rest)
          else (filled, rest'))

  -- The branches before the batch: commands on circuit 0 of their own, and those of the switch.
  pub is_branch : Cell → Bool
  is_branch m =
      (m.circ_id == 0
        && (m.cmd == 9
            || m.cmd == 16
            || m.cmd == 32
            || m.cmd == 20
            || m.cmd == 29
            || m.cmd == 22
            || (m.cmd == 19 && leb 3 (length m.payload))))
      || m.cmd == cmd_home_hello
      || m.cmd == cmd_create
      || m.cmd == cmd_destroy
      || m.cmd == cmd_resume

  -- One round of the loop, for the first cell of what is left of a burst.
  pub serve_one : Cell → List Cell → List Handled × List Cell
  unfolding is_branch gather
  serve_one m ms =
      let batch = gather m.circ_id (m ∷ []) ms in
      if m.cmd == cmd_padding
      then ([], ms)
      else (if is_branch m
          then (dispatches m ∷ [], ms)
          else (if has_bridge m.circ_id
              then (bridges m ∷ [], ms)
              else (if has_circuit m.circ_id then batch else ([], ms))))
