-- ===== src/Relay/Exchange/Requests.antt =====
-- sail/relay/rpcover.go and the chunks of `serveConn`: a request that is cut into cells arrives whole.
use sailnet.Common.{
  ℕ, zero, suc, ◌+◌, ◌≤◌, ◌<◌, ◌≡◌, refl, sym, ap, ◌∙◌, arith, List, [], ◌∷◌, ◌++◌,
}
use sailnet.Common.{
  append_assoc, append-nil, true, false, leb, ltb, ==_iff, if◌then◌else◌, length, take, drop,
}
use sailnet.Common.{
  take-append-drop, length-drop, length-take, length-append, Bytes, Option, none, some,
}
use sailnet.Wire.{cmd_rpc_multi, payload_size}
use sailnet.Wire.Cell.{Cell}
use sailnet.Relay.Exchange.{
  cell_of, cut, cells_from, send_body, rpc_request, multi_cell, part_of, delete_part, take_part,
}

abbrev pub done : Option Bytes → List Bytes
done none = []
done (some b) = b ∷ []

-- The requests that a run of cells completes.
pub take_parts : List Cell → List (ℕ × Bytes) → List Bytes
unfolding take_part
take_parts [] parts = []
take_parts (c ∷ cs) parts = let (parts', r) = take_part c parts in done r ++ take_parts cs parts'

part_of_same : (id : ℕ) (b : Bytes) (ps : List (ℕ × Bytes)) → part_of id ((id, b) ∷ ps) ≡ b
unfolding part_of
part_of_same id b ps = ground (arith, ==_iff id id)

take_part_adds :
    (id : ℕ) (have p : Bytes) (ps : List (ℕ × Bytes)) (cs : List Cell)
    → part_of id ps ≡ have
    → 1 ≤ length p
    → length have + length p ≤ 65536
    → take_parts (cell_of cmd_rpc_multi id p ∷ cs) ps
      ≡ take_parts cs ((id, have ++ p) ∷ delete_part id ps)
unfolding take_parts take_part
take_part_adds id have [] ps cs e h l = absurd (omega arith)
take_part_adds id have (x ∷ p) ps cs e h l =
    let small : leb (length have + length (x ∷ p)) 65536 ≡ true = ground (arith, l) in
    let step : take_part (cell_of cmd_rpc_multi id (x ∷ p)) ps
        ≡ ((id, have ++ (x ∷ p)) ∷ delete_part id ps, none) =
      rw (take_part, e, small) refl in
    ap (λ (t : List (ℕ × Bytes) × Option Bytes). done t.1 ++ take_parts cs t.0) step

take_part_ends :
    (id : ℕ) (have : Bytes) (ps : List (ℕ × Bytes))
    → part_of id ps ≡ have
    → 1 ≤ length have
    → take_parts (cell_of cmd_rpc_multi id [] ∷ []) ps ≡ have ∷ []
unfolding take_parts take_part
take_part_ends id [] ps e o = absurd (omega arith)
take_part_ends id (y ∷ ys) ps e o =
    let step : take_part (cell_of cmd_rpc_multi id []) ps ≡ (delete_part id ps, some (y ∷ ys)) =
      rw (take_part, e) refl in
    ap (λ (t : List (ℕ × Bytes) × Option Bytes). done t.1 ++ []) step

-- The parts of `body`, behind `have` of the same stream.
parts_join :
    (fuel id seq : ℕ) (body have : Bytes) (ps : List (ℕ × Bytes))
    → length body ≤ fuel
    → part_of id ps ≡ have
    → 1 ≤ length have + length body
    → length have + length body ≤ 65536
    → take_parts (cells_from (multi_cell id) seq (cut fuel body)) ps ≡ (have ++ body) ∷ []
unfolding cut cells_from
parts_join zero id seq [] have ps h e o l =
    take_part_ends id have ps e (omega (arith, o)) ∙ sym (ap (λ b. b ∷ []) (append-nil have))
parts_join zero id seq (x ∷ xs) have ps h e o l = absurd (omega arith)
parts_join (suc fuel) id seq [] have ps h e o l =
    take_part_ends id have ps e (omega (arith, o)) ∙ sym (ap (λ b. b ∷ []) (append-nil have))
parts_join (suc fuel) id seq (x ∷ xs) have ps h e o l =
    let body = x ∷ xs in
    let k = if ltb 1000 (length body) then 1000 else length body in
    let size = length-take k body in
    let rest = length-drop k body in
    let cs = cells_from (multi_cell id) (suc seq) (cut fuel (drop k body)) in
    let joined = length-append have (take k body) in
    take_part_adds id have (take k body) ps cs e (ground (arith, size)) (ground (arith, size, l))
    ∙ parts_join fuel id (suc seq) (drop k body) (have ++ take k body)
        ((id, have ++ take k body) ∷ delete_part id ps) (ground (arith, rest, h))
        (part_of_same id (have ++ take k body) (delete_part id ps))
        (ground (arith, joined, size, rest)) (ground (arith, joined, size, rest, l))
    ∙ ap (λ b. b ∷ []) (append_assoc have (take k body) (drop k body))
    ∙ ap (λ b. (have ++ b) ∷ []) (take-append-drop k body)

-- A request too large for a cell and of at most 64 KiB, which is what the client sends, is handled by the
-- entry once and whole, whatever requests of other streams are in progress on the connection.
pub take_parts-rpc_request :
    (id : ℕ) (body : Bytes) (ps : List (ℕ × Bytes))
    → payload_size < length body
    → length body ≤ 65536
    → part_of id ps ≡ []
    → take_parts (rpc_request id body) ps ≡ body ∷ []
unfolding rpc_request send_body
take_parts-rpc_request id body ps h l e =
    let large : leb (length body) payload_size ≡ false = ground (arith, h) in
    rw large (
      parts_join (length body) id 0 body [] ps (omega arith) e (omega (arith, h))
        (omega (arith, l)))
