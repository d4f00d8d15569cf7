-- ===== src/Relay/Server/Metering/Chunks.antt =====
-- sail/relay/server.go: `replyChunks` cuts what a stream brings into cells.
use sailnet.Common.{ℕ, zero, suc, ◌≤◌, ◌≡◌, refl, ap, ◌∙◌, arith}
use sailnet.Common.{
  List, [], ◌∷◌, ◌++◌, All, Bytes, length, take, drop, take-append-drop, length-drop, length-take,
}
use sailnet.Common.{if◌then◌else◌, ltb, ◌==◌, false}
use sailnet.Wire.{max_data, cmd_data}
use sailnet.Wire.Cell.{Cell}
use sailnet.Wire.Onion.{Aead}
use sailnet.Relay.Server.Circuit.{Circuit}
use sailnet.Relay.Server.Ring.{deliver, seal_backward}
use sailnet.Relay.Server.Metering.{chunk_loop, reply_chunks}

abbrev pub concat : List Bytes → Bytes
concat [] = []
concat (p ∷ ps) = p ++ concat ps

-- A chunk is not empty, and no longer than a cell carries.
abbrev pub Fits : Bytes → Type 0
Fits p = (1 ≤ length p) × (length p ≤ 923)

module _ (a : Aead) where
  -- Each part in a cell of its own, in order.
  pub seal_each : Circuit → ℕ → List Bytes → Circuit × List Cell
  seal_each c sid [] = (c, [])
  seal_each c sid (p ∷ ps) =
      let (c', cell) = seal_backward a c cmd_data sid p in
      let (c'', cells) = seal_each c' sid ps in (c'', cell ∷ cells)

  abbrev pub CutOf : Circuit → ℕ → Bytes → Circuit × List Cell → Type 0
  CutOf c sid text r =
      (ps : List Bytes) × All Fits ps × (concat ps ≡ text) × (r ≡ seal_each c sid ps)

  chunk_loop-CutOf :
      (fuel : ℕ) (c : Circuit) (sid : ℕ) (text : Bytes)
      → length text ≤ fuel
      → CutOf c sid text (chunk_loop a fuel c sid text)
  unfolding chunk_loop seal_each
  chunk_loop-CutOf zero c sid [] h = ([], tt, refl, refl)
  chunk_loop-CutOf zero c sid (x ∷ xs) h = absurd (omega arith)
  chunk_loop-CutOf (suc fuel) c sid [] h = ([], tt, refl, refl)
  chunk_loop-CutOf (suc fuel) c sid (x ∷ xs) h =
      let text = x ∷ xs in
      let n = if ltb max_data (length text) then max_data else length text in
      let c' = (seal_backward a c cmd_data sid (take n text)).0 in
      let size = length-take n text in
      let rest = length-drop n text in
      let (ps, fit, all, e) =
        chunk_loop-CutOf fuel c' sid (drop n text) (ground (arith, h, rest)) in
      let cell = (seal_backward a c cmd_data sid (take n text)).1 in
      let some_left : (length text == 0) ≡ false = ground arith in
      (
        take n text ∷ ps,
        (ground (arith, size), fit),
        ap (λ t. take n text ++ t) all ∙ take-append-drop n text,
        rw some_left (ap (λ (r : Circuit × List Cell). (r.0, cell ∷ r.1)) e),
      )

  -- What a stream brings goes out whole and in order: the cells carry parts that are not empty, fit a
  -- cell and together are the data, each sealed behind the one before it, and they are delivered as one
  -- burst. The loop has rounds enough for every length.
  pub reply_chunks_cut :
      (c : Circuit) (sid : ℕ) (text : Bytes)
      → (ps : List Bytes) × All Fits ps
        × (concat ps ≡ text)
        × (reply_chunks a c sid text
            ≡ (let (c', cells) = seal_each c sid ps in (c', deliver c' cells)))
  unfolding reply_chunks
  reply_chunks_cut c sid text =
      let (ps, fit, all, e) = chunk_loop-CutOf (length text) c sid text (omega arith) in
      (ps, fit, all, ap (λ (r : Circuit × List Cell). (r.0, deliver r.0 r.1)) e)
