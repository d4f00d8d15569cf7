-- ===== src/Relay/Server/Ring/Resumed.antt =====
-- sail/relay/server.go: a client that comes back after its link dropped gets what it missed.
use mathlib.Core.Path.{subst}
use sailnet.Common.{ℕ, zero, suc, ◌+◌, ◌-◌, ◌≤◌, ◌<◌, ◌≡◌, refl, sym, ap, ◌∙◌, arith}
use sailnet.Common.{
  List, [], ◌∷◌, ◌++◌, map, length, drop, length-append, word, append-nil, append_assoc,
}
use sailnet.Common.{Bytes, put_uint64, none}
use sailnet.Wire.Cell.{Cell}
use sailnet.Wire.Onion.{Aead, seal_backward as sealed, wrap_backward as wrapped}
use sailnet.Wire.Onion.Backward.{seal_backward-next_bwd, wrap_backward-next_bwd}
use sailnet.Relay.Server.Circuit.{Circuit}
use sailnet.Relay.Server.Ring.{seal_backward, wrap_backward, reattach, again, with_id}
use sailnet.Relay.Server.Ring.Kept.{
  HasSent, boxes_of, ring_of, numbered, send_box-HasSent, reattach-HasSent, again-numbered,
  drop-numbered, length-boxes_of, no_cells, drop-nil,
}

-- A reply of this hop, a cell from the next hop, the loss of the client's link, and a reattachment.
pub data Event : Type 0 where
  replies : ℕ → ℕ → Bytes → Event
  relays : Bytes → Event
  loses : Event
  resumes : ℕ → ℕ → ℕ → Event

module _ (a : Aead) where
  -- The circuit after the event, and the boxes it has sent anew.
  unfoldable pub step : Circuit → Event → Circuit × List Bytes
  step c (replies cmd sid text) =
      let (c', x) = seal_backward a c cmd sid text in (c', x.payload ∷ [])
  step c (relays box) = let (c', x) = wrap_backward a c box in (c', x.payload ∷ [])
  step c loses = (record c { link = none }, [])
  step c (resumes id link recv) = ((reattach id link recv c).0, [])

  unfoldable pub run : Circuit → List Event → Circuit × List Bytes
  unfolding step
  run c [] = (c, [])
  run c (e ∷ es) = let (c', bs) = step c e in let (c'', rest) = run c' es in (c'', bs ++ rest)

  step-HasSent :
      (boxes : List Bytes) (c : Circuit) (e : Event)
      → suc c.keys.bwd_seq < word
      → HasSent boxes c
      → HasSent (boxes ++ (step c e).1) (step c e).0
  unfolding step seal_backward wrap_backward
  step-HasSent boxes c (replies cmd sid text) h s =
      let (keys, box) = sealed a c.keys cmd sid text in
      send_box-HasSent boxes c keys box
        (ap (λ k. k.bwd_seq) (seal_backward-next_bwd a c.keys cmd sid text) ∙ omega (arith, h)) s
  step-HasSent boxes c (relays box) h s =
      let (keys, out) = wrapped a c.keys box in
      send_box-HasSent boxes c keys out
        (ap (λ k. k.bwd_seq) (wrap_backward-next_bwd a c.keys box) ∙ omega (arith, h)) s
  step-HasSent boxes c loses h s = rw (append-nil boxes) s
  step-HasSent boxes c (resumes id link recv) h s =
      rw (append-nil boxes) (reattach-HasSent id link recv boxes c s)

  step_adds : (c : Circuit) (e : Event) → length (step c e).1 ≤ 1
  unfolding step
  step_adds c (replies cmd sid text) = omega arith
  step_adds c (relays box) = omega arith
  step_adds c loses = omega arith
  step_adds c (resumes id link recv) = omega arith

  sent-bwd_seq :
      (boxes : List Bytes) (c : Circuit) → HasSent boxes c → c.keys.bwd_seq ≡ length boxes
  sent-bwd_seq boxes c (xs, b, n, r) = n ∙ sym (length-boxes_of xs) ∙ ap (λ z. length z) b

  run-HasSent :
      (boxes : List Bytes) (c : Circuit) (es : List Event)
      → length boxes + length es < word
      → HasSent boxes c
      → HasSent (boxes ++ (run c es).1) (run c es).0
  unfolding run
  run-HasSent boxes c [] h s = rw (append-nil boxes) s
  run-HasSent boxes c (e ∷ es) h s =
      let (c', bs) = step c e in
      subst (λ z. HasSent z (run c' es).0) (append_assoc boxes bs (run c' es).1)
        (run-HasSent (boxes ++ bs) c' es (omega (arith, h, length-append boxes bs, step_adds c e))
          (step-HasSent boxes c e (omega (arith, h, sent-bwd_seq boxes c s)) s))

boxes_of-with_id : (id : ℕ) (xs : List Cell) → boxes_of (map (with_id id) xs) ≡ boxes_of xs
boxes_of-with_id id [] = refl
boxes_of-with_id id (x ∷ xs) = ap (λ r. x.payload ∷ r) (boxes_of-with_id id xs)

boxes_of-drop : (k : ℕ) (xs : List Cell) → boxes_of (drop k xs) ≡ drop k (boxes_of xs)
unfolding drop
boxes_of-drop zero xs = refl
boxes_of-drop (suc k) [] = refl
boxes_of-drop (suc k) (x ∷ xs) = boxes_of-drop k xs

drop-drop : (k m : ℕ) (xs : List Cell) → drop m (drop k xs) ≡ drop (k + m) xs
unfolding drop
drop-drop zero m xs = let e : m ≡ zero + m = omega arith in ap (λ n. drop n xs) e
drop-drop (suc k) m [] = drop-nil m ∙ sym (drop-nil (suc k + m))
drop-drop (suc k) m (x ∷ xs) =
    let e : suc (k + m) ≡ suc k + m = omega arith in drop-drop k m xs ∙ ap (λ n. drop n (x ∷ xs)) e

again-ring_of :
    (recv id : ℕ) (xs : List Cell)
    → length xs ≤ recv + 8192
    → boxes_of (again recv id (ring_of xs)) ≡ drop recv (boxes_of xs)
again-ring_of recv id xs h =
    let k = length xs - 8192 in
    let same : k + (recv - (0 + k)) ≡ recv = omega (arith, h) in
    ap (λ r. boxes_of (again recv id r)) (drop-numbered k 0 xs)
    ∙ ap boxes_of (again-numbered recv id (0 + k) (drop k xs))
    ∙ boxes_of-with_id id (drop (recv - (0 + k)) (drop k xs))
    ∙ ap boxes_of (drop-drop k (recv - (0 + k)) xs)
    ∙ ap (λ m. boxes_of (drop m xs)) same
    ∙ boxes_of-drop recv xs

-- Whatever a new circuit went through - cells sent and relayed, links lost, earlier reattachments - a
-- reattachment sends again, behind its acknowledgement, exactly the boxes sent after the first `recv`,
-- in order: none is missing and none is doubled. The client has got all but the last 8192 at least,
-- and the circuit has gone through fewer than 2 ^ 64 events.
pub reattach_is_lossless :
    (a : Aead) (c : Circuit) (es : List Event) (id link recv : ℕ)
    → c.keys.bwd_seq ≡ 0
    → c.ring ≡ []
    → length es < word
    → length (run a c es).1 ≤ recv + 8192
    → boxes_of (reattach id link recv (run a c es).0).1
      ≡ (put_uint64 (run a c es).0.keys.fwd_win.high ∷ drop recv (run a c es).1)
unfolding reattach drop numbered
reattach_is_lossless a c es id link recv z e h l =
    let (xs, b, n, r) = run-HasSent a [] c es (omega (arith, h)) (no_cells, refl, z, e) in
    let k = run a c es in
    ap (λ t. put_uint64 k.0.keys.fwd_win.high ∷ t)
      (ap (λ t. boxes_of (again recv id t)) r
        ∙ again-ring_of recv id xs (omega (arith, l, length-boxes_of xs, ap (λ t. length t) b))
        ∙ ap (drop recv) b)
