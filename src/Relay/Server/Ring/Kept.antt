-- ===== src/Relay/Server/Ring/Kept.antt =====
-- sail/relay/server.go: what the ring holds after any run of backward cells.
use sailnet.Common.{
  ℕ, zero, suc, ◌+◌, ◌-◌, ◌≤◌, ◌<◌, ◌≡◌, refl, sym, ap, ◌∙◌, arith, List, [], ◌∷◌, ◌++◌, map,
}
use sailnet.Common.{ltb, if◌then◌else◌, length, take, drop, take_all, length-append, length-drop}
use sailnet.Common.{Bytes, order_cases, inl, inr}
use sailnet.Wire.Cell.{Cell}
use sailnet.Wire.Onion.{HopKeys}
use sailnet.Relay.Server.Circuit.{Circuit, RingCell}
use sailnet.Relay.Server.Ring.{remember, ring_cells, send_box, again, renumber, with_id, reattach}

-- The cells with the numbers behind `n`.
unfoldable pub numbered : ℕ → List Cell → List RingCell
numbered n [] = []
numbered n (x ∷ xs) = record { seq = suc n; cell = x } ∷ numbered (suc n) xs

length-numbered : (n : ℕ) (xs : List Cell) → length (numbered n xs) ≡ length xs
unfolding numbered
length-numbered n [] = refl
length-numbered n (x ∷ xs) = ap suc (length-numbered (suc n) xs)

numbered-append :
    (n : ℕ) (xs ys : List Cell)
    → numbered n (xs ++ ys) ≡ numbered n xs ++ numbered (n + length xs) ys
unfolding numbered
numbered-append n [] ys = ap (λ k. numbered k ys) (omega arith)
numbered-append n (x ∷ xs) ys =
    ap (λ r. record { seq = suc n; cell = x } ∷ r)
      (numbered-append (suc n) xs ys ∙ ap (λ k. numbered (suc n) xs ++ numbered k ys) (omega arith))

pub drop-numbered :
    (k n : ℕ) (xs : List Cell) → drop k (numbered n xs) ≡ numbered (n + k) (drop k xs)
unfolding drop numbered
drop-numbered zero n xs = ap (λ m. numbered m xs) (omega arith)
drop-numbered (suc k) n [] = refl
drop-numbered (suc k) n (x ∷ xs) =
    drop-numbered k (suc n) xs ∙ ap (λ m. numbered m (drop k xs)) (omega arith)

module _ {ℓ} {A : Type ℓ} where
  drop-append_under : (k : ℕ) (xs ys : List A) → k ≤ length xs → drop k (xs ++ ys) ≡ drop k xs ++ ys
  unfolding drop
  drop-append_under zero xs ys h = refl
  drop-append_under (suc k) [] ys h = absurd (omega arith)
  drop-append_under (suc k) (x ∷ xs) ys h = drop-append_under k xs ys (omega arith)

  drop_one-drop : (k : ℕ) (xs : List A) → drop 1 (drop k xs) ≡ drop (suc k) xs
  unfolding drop
  drop_one-drop zero xs = refl
  drop_one-drop (suc k) [] = refl
  drop_one-drop (suc k) (x ∷ xs) = drop_one-drop k xs

-- The last 8192 of the cells numbered from 1.
abbrev pub ring_of : List Cell → List RingCell
ring_of xs = drop (length xs - ring_cells) (numbered 0 xs)

abbrev last_of : List RingCell → List RingCell
last_of r = drop (length r - ring_cells) r

slide :
    (k : ℕ) (r es : List RingCell)
    → length r ≡ k + 8192
    → take 8191 (drop 1 (drop k r)) ++ es ≡ drop (suc k) (r ++ es)
slide k r es h =
    rw (drop_one-drop k r, take_all 8191 (drop (suc k) r) (omega (arith, h, length-drop (suc k) r)))
      (sym (drop-append_under (suc k) r es (omega arith)))

all_of {ℓ} : {A : Type ℓ} (r : List A) (k : ℕ) → k ≡ 0 → drop k r ≡ r
unfolding drop
all_of r k h = rw h refl

remember_full :
    (seq : ℕ) (x : Cell) (r : List RingCell)
    → 8192 ≤ length r
    → remember seq x r ≡ take 8191 (drop 1 r) ++ (record { seq = seq; cell = x } ∷ [])
unfolding remember
remember_full seq x r h = ground (arith, h)

remember_part :
    (seq : ℕ) (x : Cell) (r : List RingCell)
    → length r < 8192
    → remember seq x r ≡ r ++ (record { seq = seq; cell = x } ∷ [])
unfolding remember
remember_part seq x r h = ground (arith, h)

remember-last_of :
    (seq : ℕ) (x : Cell) (r : List RingCell)
    → remember seq x (last_of r) ≡ last_of (r ++ (record { seq = seq; cell = x } ∷ []))
remember-last_of seq x r =
    let e : RingCell = record { seq = seq; cell = x } in
    let k = length r - 8192 in
    let size = length-append r (e ∷ []) in
    let left = length-drop k r in
    elim (order_cases 8192 (length r)) [
      | inl long ↦
          remember_full seq x (last_of r) (omega (arith, long, left))
          ∙ slide k r (e ∷ []) (omega (arith, long))
          ∙ ap (λ m. drop m (r ++ (e ∷ []))) (omega (arith, long, size))
      | inr short ↦
          remember_part seq x (last_of r) (omega (arith, short, left))
          ∙ ap (λ s. s ++ (e ∷ [])) (all_of r k (omega (arith, short)))
          ∙ sym
              (all_of (r ++ (e ∷ [])) (length (r ++ (e ∷ [])) - 8192) (omega (arith, short, size)))
    ]

remember-ring_of :
    (xs : List Cell) (x : Cell)
    → remember (suc (length xs)) x (ring_of xs) ≡ ring_of (xs ++ (x ∷ []))
unfolding numbered
remember-ring_of xs x =
    let r = remember-last_of (suc (length xs)) x (numbered 0 xs) in
    grind (
      arith,
      r,
      length-numbered 0 xs,
      length-numbered 0 (xs ++ (x ∷ [])),
      numbered-append 0 xs (x ∷ []),
    )

abbrev pub boxes_of : List Cell → List Bytes
boxes_of = map λ x. x.payload

-- The circuit has sent these boxes, since its keys were new.
abbrev pub HasSent : List Bytes → Circuit → Type 0
HasSent boxes c =
    (xs : List Cell) × (boxes_of xs ≡ boxes) × (c.keys.bwd_seq ≡ length xs) × (c.ring ≡ ring_of xs)

pub length-boxes_of : (xs : List Cell) → length (boxes_of xs) ≡ length xs
length-boxes_of [] = refl
length-boxes_of (x ∷ xs) = ap suc (length-boxes_of xs)

boxes_of-append : (xs ys : List Cell) → boxes_of (xs ++ ys) ≡ boxes_of xs ++ boxes_of ys
boxes_of-append [] ys = refl
boxes_of-append (x ∷ xs) ys = ap (λ r. x.payload ∷ r) (boxes_of-append xs ys)

pub send_box-HasSent :
    (boxes : List Bytes) (c : Circuit) (keys : HopKeys) (box : Bytes)
    → keys.bwd_seq ≡ suc c.keys.bwd_seq
    → HasSent boxes c
    → HasSent (boxes ++ (box ∷ [])) (send_box c (keys, box)).0
send_box-HasSent boxes c keys box e (xs, b, n, r) =
    let x = (send_box c (keys, box)).1 in
    let count : keys.bwd_seq ≡ suc (length xs) = omega (arith, e, n) in
    (
      xs ++ (x ∷ []),
      boxes_of-append xs (x ∷ []) ∙ ap (λ z. z ++ (box ∷ [])) b,
      omega (arith, count, length-append xs (x ∷ [])),
      rw (count, r) (remember-ring_of xs x),
    )

abbrev pub no_cells : List Cell
no_cells = []

pub drop-nil : (k : ℕ) → drop k no_cells ≡ no_cells
unfolding drop
drop-nil zero = refl
drop-nil (suc k) = refl

drop_past : (k : ℕ) (x : Cell) (xs : List Cell) → drop (suc k) (x ∷ xs) ≡ drop k xs
unfolding drop
drop_past k x xs = refl

-- Of the cells numbered from `n + 1`, those above `recv`.
pub again-numbered :
    (recv id n : ℕ) (xs : List Cell)
    → again recv id (numbered n xs) ≡ map (with_id id) (drop (recv - n) xs)
unfolding again numbered
again-numbered recv id n [] = sym (ap (map (with_id id)) (drop-nil (recv - n)))
again-numbered recv id n (x ∷ xs) =
    let ih = again-numbered recv id (suc n) xs in
    elim (order_cases recv n) [
      | inl h ↦
          let here = all_of (x ∷ xs) (recv - n) (omega (arith, h)) in
          let after = all_of xs (recv - suc n) (omega (arith, h)) in
          rw here (ground (arith, h, ih, after))
      | inr h ↦
          let past = drop_past (recv - suc n) x xs in
          let count : recv - n ≡ suc (recv - suc n) = omega (arith, h) in
          rw (count, past) (ground (arith, h, ih))
    ]

-- The cells with the circuit number changed on those above `recv`.
renumbered : ℕ → ℕ → ℕ → List Cell → List Cell
renumbered recv id n [] = []
renumbered recv id n (x ∷ xs) =
    (if ltb recv (suc n) then with_id id x else x) ∷ renumbered recv id (suc n) xs

renumber-numbered :
    (recv id n : ℕ) (xs : List Cell)
    → renumber recv id (numbered n xs) ≡ numbered n (renumbered recv id n xs)
unfolding renumber numbered renumbered
renumber-numbered recv id n [] = refl
renumber-numbered recv id n (x ∷ xs) = ground (arith, renumber-numbered recv id (suc n) xs)

renumber-drop :
    (recv id k : ℕ) (r : List RingCell) → renumber recv id (drop k r) ≡ drop k (renumber recv id r)
unfolding renumber drop
renumber-drop recv id zero r = refl
renumber-drop recv id (suc k) [] = refl
renumber-drop recv id (suc k) (x ∷ r) = ground (arith, renumber-drop recv id k r)

boxes_of-renumbered :
    (recv id n : ℕ) (xs : List Cell) → boxes_of (renumbered recv id n xs) ≡ boxes_of xs
unfolding renumbered
boxes_of-renumbered recv id n [] = refl
boxes_of-renumbered recv id n (x ∷ xs) = ground (arith, boxes_of-renumbered recv id (suc n) xs)

-- A reattachment changes circuit numbers in the ring, and no box.
pub reattach-HasSent :
    (id link recv : ℕ) (boxes : List Bytes) (c : Circuit)
    → HasSent boxes c
    → HasSent boxes (reattach id link recv c).0
unfolding reattach
reattach-HasSent id link recv boxes c (xs, b, n, r) =
    let ys = renumbered recv id 0 xs in
    let same = boxes_of-renumbered recv id 0 xs in
    let count : length ys ≡ length xs =
      sym (length-boxes_of ys) ∙ ap (λ z. length z) same ∙ length-boxes_of xs in
    (
      ys,
      same ∙ b,
      n ∙ sym count,
      ap (renumber recv id) r
          ∙ renumber-drop recv id (length xs - 8192) (numbered 0 xs)
          ∙ ap (drop (length xs - 8192)) (renumber-numbered recv id 0 xs)
          ∙ ap (λ k. drop (k - 8192) (numbered 0 ys)) (sym count),
    )
