-- ===== src/Relay/Server/Conn/Order.antt =====
-- sail/relay/server.go: which cells of a burst reach `handleRelayBatch`.
use sailnet.Common.{
  ℕ, ◌≡◌, ◌≢◌, refl, sym, ap, ◌∙◌, arith, List, [], ◌∷◌, ◌++◌, append_assoc, append-nil,
}
use sailnet.Common.{
  Bool, true, false, not, ◌&&◌, ◌||◌, leb, ◌==◌, ==_iff, if◌then◌else◌, if_cases, length,
}
use sailnet.Wire.{cmd_data}
use sailnet.Wire.Cell.{Cell}
use sailnet.Relay.Server.Conn.{Handled, relays, bridges, dispatches, stray, gather}

-- Cells that are given to one circuit.
unfoldable pub given : ℕ → List Cell → List (ℕ × Cell)
given id [] = []
given id (m ∷ ms) = (id, m) ∷ given id ms

given-append : (id : ℕ) (xs ys : List Cell) → given id (xs ++ ys) ≡ given id xs ++ given id ys
unfolding given
given-append id [] ys = refl
given-append id (x ∷ xs) ys = ap (λ r. (id, x) ∷ r) (given-append id xs ys)

module _ (has_circuit : ℕ → Bool) (has_bridge : ℕ → Bool) where
  stray_drops : (x : Cell) → x.cmd ≢ cmd_data → stray has_circuit has_bridge x ≡ []
  unfolding stray
  stray_drops x n = ground (arith, n, ==_iff x.cmd 7)

  -- Whatever command it carries - CREATE, DESTROY, RESUME, a ledger request - a cell that is no data cell
  -- and is in the buffer behind a data cell is taken from it and passed over: the batch goes out, and
  -- the rest of the burst is served as if the cell had been any other, padding say.
  pub gather_passes_over :
      (id : ℕ) (batch ms : List Cell) (x y : Cell)
      → x.cmd ≢ cmd_data
      → y.cmd ≢ cmd_data
      → (leb 64 (length batch) ≡ false)
      → gather has_circuit has_bridge id batch (x ∷ ms)
        ≡ gather has_circuit has_bridge id batch (y ∷ ms)
  unfolding gather
  gather_passes_over id batch ms x y n m f =
      ground (arith, f, n, m, stray_drops x n, stray_drops y m, ==_iff x.cmd 7, ==_iff y.cmd 7)

  -- The cells that are relayed, in order, each with the circuit it is given to.
  pub relayed : List Handled → List (ℕ × Cell)
  unfolding given
  relayed [] = []
  relayed (relays id cells ∷ hs) = given id cells ++ relayed hs
  relayed (bridges cell ∷ hs) = relayed hs
  relayed (dispatches cell ∷ hs) = relayed hs

  -- The data cells of circuits that are not bridged, each with its own circuit.
  pub wanted : List Cell → List (ℕ × Cell)
  wanted [] = []
  wanted (m ∷ ms) =
      let rest = wanted ms in
      if m.cmd == cmd_data && has_circuit m.circ_id && not (has_bridge m.circ_id)
      then (m.circ_id, m) ∷ rest
      else rest

  relayed-append : (hs ks : List Handled) → relayed (hs ++ ks) ≡ relayed hs ++ relayed ks
  unfolding relayed
  relayed-append [] ks = refl
  relayed-append (relays id cells ∷ hs) ks =
      ap (λ r. given id cells ++ r) (relayed-append hs ks)
      ∙ sym (append_assoc (given id cells) (relayed hs) (relayed ks))
  relayed-append (bridges cell ∷ hs) ks = relayed-append hs ks
  relayed-append (dispatches cell ∷ hs) ks = relayed-append hs ks

  relayed-stray :
      (m : Cell) (ms : List Cell)
      → relayed (stray has_circuit has_bridge m) ++ wanted ms ≡ wanted (m ∷ ms)
  unfolding relayed stray wanted given
  relayed-stray m ms = ground (arith, ==_iff m.cmd 7, ==_iff m.cmd 18)

  wanted_own :
      (m : Cell) (ms : List Cell)
      → has_circuit m.circ_id ≡ true
      → has_bridge m.circ_id ≡ false
      → (m.cmd == cmd_data) ≡ true
      → wanted (m ∷ ms) ≡ (m.circ_id, m) ∷ wanted ms
  unfolding wanted
  wanted_own m ms h k e = ground (arith, h, k, e)

  last_batch :
      (id : ℕ) (batch : List Cell)
      → relayed (if length batch == 0 then [] else relays id batch ∷ []) ≡ given id batch
  unfolding relayed given
  last_batch id [] = ground arith
  last_batch id (b ∷ bs) =
      let full : (length (b ∷ bs) == 0) ≡ false = ground arith in
      rw full (append-nil (given id (b ∷ bs)))

  -- Nothing of a burst's data is lost, doubled or moved on the way to the circuits: with what is still in
  -- the buffer, the cells that are relayed are the batch, given to its circuit, and then, in order, every
  -- data cell of a circuit of the connection that is not bridged, each given to its own circuit. The
  -- batch's circuit is one of these.
  pub gather_relays :
      (id : ℕ) (batch ms : List Cell)
      → has_circuit id ≡ true
      → has_bridge id ≡ false
      → let g = gather has_circuit has_bridge id batch ms in
        relayed g.0 ++ wanted g.1 ≡ given id batch ++ wanted ms
  unfolding gather relayed wanted given
  gather_relays id batch [] h k =
      append-nil _ ∙ last_batch id batch ∙ sym (append-nil (given id batch))
  gather_relays id batch (m ∷ ms) h k =
      let (flushed, rest) = gather has_circuit has_bridge id [] ms in
      let (filled, rest') = gather has_circuit has_bridge id (batch ++ (m ∷ [])) ms in
      let Goal : List Handled × List Cell → Type 0 =
        λ g. relayed g.0 ++ wanted g.1 ≡ given id batch ++ wanted (m ∷ ms) in
      let apart = relays id batch ∷ (stray has_circuit has_bridge m ++ flushed) in
      if_cases Goal (leb 64 (length batch)) {x = (relays id batch ∷ [], m ∷ ms)}
        {y = if not (m.circ_id == id) || not (m.cmd == cmd_data)
          then (apart, rest)
          else (filled, rest')}
        (λ e. ap (λ r. r ++ wanted (m ∷ ms)) (append-nil (given id batch)))
        λ e.
          if_cases Goal (not (m.circ_id == id) || not (m.cmd == cmd_data)) {x = (apart, rest)}
            {y = (filled, rest')}
            (λ d.
              append_assoc (given id batch) (relayed (stray has_circuit has_bridge m ++ flushed))
                (wanted rest)
              ∙ ap (λ r. given id batch ++ r)
                  (ap (λ r. r ++ wanted rest)
                      (relayed-append (stray has_circuit has_bridge m) flushed)
                    ∙ append_assoc (relayed (stray has_circuit has_bridge m)) (relayed flushed)
                        (wanted rest)
                    ∙ ap (λ r. relayed (stray has_circuit has_bridge m) ++ r)
                        (gather_relays id [] ms h k)
                    ∙ relayed-stray m ms))
            λ d.
              let same : m.circ_id ≡ id = ground (arith, d, ==_iff m.circ_id id) in
              gather_relays id (batch ++ (m ∷ [])) ms h k
              ∙ ap (λ r. r ++ wanted ms) (given-append id batch (m ∷ []))
              ∙ append_assoc (given id batch) ((id, m) ∷ []) (wanted ms)
              ∙ ap (λ i. given id batch ++ ((i, m) ∷ wanted ms)) (sym same)
              ∙ ap (λ r. given id batch ++ r)
                  (sym (
                    wanted_own m ms (ap has_circuit same ∙ h) (ap has_bridge same ∙ k)
                      (ground (arith, d))))
