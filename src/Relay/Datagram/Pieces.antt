-- ===== src/Relay/Datagram/Pieces.antt =====
-- sail/relay/udp.go: however a stream of framed datagrams is cut into pieces, the datagrams come out whole.
use mathlib.Core.Path.{subst}
use sailnet.Common.{
  ℕ, zero, suc, ◌+◌, ◌%◌, ◌≤◌, ◌<◌, ◌≡◌, refl, sym, ap, ◌∙◌, ◌⊎◌, inl, inr, arith, List, [], ◌∷◌,
  ◌++◌,
}
use sailnet.Common.{append_assoc, append-nil, Bool, true, false, ltb, length, take, drop}
use sailnet.Common.{take_within, drop_within, take-append, drop-append, length-append, length-drop}
use sailnet.Common.{order_cases, All, Bytes, put_uint16, get_uint16, get-put_uint16}
use sailnet.Relay.Server.Metering.Chunks.{concat}
use sailnet.Relay.Datagram.{
  frame, Written, taken, bad_frame, refused, write_loop, write, max_datagram,
}

-- The bytes of a stream that carries `ds`.
unfoldable pub stream : List Bytes → Bytes
stream [] = []
stream (d ∷ ds) = frame d ++ stream ds

get_uint16_within : (xs ys : Bytes) → 2 ≤ length xs → get_uint16 (xs ++ ys) ≡ get_uint16 xs
unfolding get_uint16
get_uint16_within [] ys h = absurd (omega arith)
get_uint16_within (x ∷ []) ys h = absurd (omega arith)
get_uint16_within (x ∷ y ∷ xs) ys h = refl

length-frame : (d : Bytes) → length (frame d) ≡ 2 + length d
unfolding frame put_uint16
length-frame d = omega arith

-- How a stream begins that carries `d` first.
size_first :
    (d : Bytes) (ds : List Bytes) → length d ≤ 1472 → get_uint16 (stream (d ∷ ds)) ≡ length d
unfolding stream frame
size_first d ds h =
    ap get_uint16 (append_assoc (put_uint16 (length d % 65536)) d (stream ds))
    ∙ ground (arith, h, get-put_uint16 (length d % 65536) (d ++ stream ds))

body_first : (d : Bytes) (ds : List Bytes) → drop 2 (stream (d ∷ ds)) ≡ d ++ stream ds
unfolding stream frame put_uint16 drop
body_first d ds = refl

rest_first : (d : Bytes) (ds : List Bytes) → drop (2 + length d) (stream (d ∷ ds)) ≡ stream ds
unfolding stream
rest_first d ds = drop-append (2 + length d) (frame d) (stream ds) (length-frame d)

module _ (accepts : Bytes → Bool) where
  abbrev IsCarried : Bytes → Type 0
  IsCarried d = (length d ≤ 1472) × (accepts d ≡ true)

  -- The loop's answer on the front of a stream of `ds` whose other bytes are `rest`.
  abbrev Sends : List Bytes → Bytes → List Bytes × Bytes × Written → Type 0
  Sends ds rest (sent, left, w) =
      (todo : List Bytes) × (w ≡ taken)
      × (ds ≡ sent ++ todo)
      × All IsCarried todo
      × (left ++ rest ≡ stream todo)
      × ((todo ≡ []) ⊎ (length left < length (stream todo)))

  -- The front holds less than the next datagram.
  waits :
      (fuel : ℕ) (d buf rest : Bytes) (ds : List Bytes)
      → length d ≤ 1472
      → buf ++ rest ≡ stream (d ∷ ds)
      → length buf < 2 + length d
      → write_loop accepts fuel buf ≡ ([], buf, taken)
  unfolding write_loop
  waits zero d buf rest ds f e h = refl
  waits (suc fuel) d buf rest ds f e h = elim (order_cases 2 (length buf)) [
    | inl two ↦
        let n : get_uint16 buf ≡ length d =
          sym (get_uint16_within buf rest two) ∙ ap get_uint16 e ∙ size_first d ds f in
        ground (arith, n, two, h, f)
    | inr one ↦ ground (arith, one)
  ]

  -- The front holds the next datagram whole.
  goes_on :
      (fuel : ℕ) (d buf rest : Bytes) (ds : List Bytes)
      → IsCarried d
      → buf ++ rest ≡ stream (d ∷ ds)
      → 2 + length d ≤ length buf
      → write_loop accepts (suc fuel) buf ≡ (
          let (sent, left, w) = write_loop accepts fuel (drop (2 + length d) buf) in
          (d ∷ sent, left, w))
  unfolding write_loop
  goes_on fuel d buf rest ds (f, a) e h =
      let n : get_uint16 buf ≡ length d =
        sym (get_uint16_within buf rest (omega (arith, h))) ∙ ap get_uint16 e ∙ size_first d ds f in
      let b : drop 2 buf ++ rest ≡ d ++ stream ds =
        sym (drop_within 2 buf rest (omega (arith, h))) ∙ ap (drop 2) e ∙ body_first d ds in
      let t : take (length d) (drop 2 buf) ≡ d =
        sym (take_within (length d) (drop 2 buf) rest (omega (arith, h, length-drop 2 buf)))
        ∙ ap (take (length d)) b
        ∙ take-append (length d) d (stream ds) refl in
      let long : ltb (length buf) 2 ≡ false = ground (arith, h) in
      let whole : ltb (length buf) (2 + length d) ≡ false = ground (arith, h) in
      let fits : ltb max_datagram (length d) ≡ false = ground (arith, f) in
      rw (write_loop, n, t, long, fits, whole, a) refl

  write_loop-Sends :
      (fuel : ℕ) (buf rest : Bytes) (ds : List Bytes)
      → length buf ≤ fuel
      → All IsCarried ds
      → buf ++ rest ≡ stream ds
      → Sends ds rest (write_loop accepts fuel buf)
  unfolding write_loop stream
  write_loop-Sends zero [] rest [] h all e = ([], refl, refl, tt, e, inl refl)
  write_loop-Sends zero [] rest (d ∷ ds) h all e =
      let size = length-append (frame d) (stream ds) in
      (d ∷ ds, refl, refl, all, e, inr (omega (arith, size, length-frame d)))
  write_loop-Sends zero (x ∷ buf) rest ds h all e = absurd (omega (arith, h))
  write_loop-Sends (suc fuel) [] rest [] h all e = ([], refl, refl, tt, e, inl refl)
  write_loop-Sends (suc fuel) (x ∷ buf) rest [] h all e = absurd (omega (arith, ap length e))
  write_loop-Sends (suc fuel) buf rest (d ∷ ds) h (c, all) e =
      elim (order_cases (2 + length d) (length buf)) [
        | inl whole ↦
            let tail : drop (2 + length d) buf ++ rest ≡ stream ds =
              sym (drop_within (2 + length d) buf rest whole)
              ∙ ap (drop (2 + length d)) e
              ∙ rest_first d ds in
            let (todo, w, split, more, joined, ended) =
              write_loop-Sends fuel (drop (2 + length d) buf) rest ds
                (omega (arith, h, whole, length-drop (2 + length d) buf)) all tail in
            subst (Sends (d ∷ ds) rest) (sym (goes_on fuel d buf rest ds c e whole))
              (todo, w, ap (λ r. d ∷ r) split, more, joined, ended)
        | inr part ↦
            let small : length buf < length (stream (d ∷ ds)) =
              omega (arith, part, length-append (frame d) (stream ds), length-frame d) in
            subst (Sends (d ∷ ds) rest) (sym (waits (suc fuel) d buf rest ds c.0 e part))
              (d ∷ ds, refl, refl, (c, all), e, inr small)
      ]

  -- Calls of `Write` one after the other, until one fails.
  pub writes : Bytes → List Bytes → List Bytes × Bytes × Written
  unfolding write
  writes pending [] = ([], pending, taken)
  writes pending (p ∷ ps) =
      let (sent, left, w) = write accepts pending p in
      let (more, left', w') = writes left ps in
      elim w [
        | taken ↦ (sent ++ more, left', w')
        | bad_frame ↦ (sent, left, bad_frame)
        | refused ↦ (sent, left, refused)
      ]

  writes-frames :
      (ps ds : List Bytes) (pending : Bytes)
      → All IsCarried ds
      → (ds ≡ []) ⊎ (length pending < length (stream ds))
      → pending ++ concat ps ≡ stream ds
      → writes pending ps ≡ (ds, [], taken)
  unfolding writes write stream
  writes-frames [] [] pending all ended e =
      ap (λ (b : Bytes). ([], b, taken)) (sym (append-nil pending) ∙ e)
  writes-frames [] (d ∷ ds) pending all (inl n) e = absurd (omega (arith, ap length n))
  writes-frames [] (d ∷ ds) pending all (inr l) e =
      absurd (omega (arith, l, ap length (sym (append-nil pending) ∙ e)))
  writes-frames (p ∷ ps) ds pending all ended e =
      let r = write accepts pending p in
      let (todo, w, split, more, joined, stop) =
        write_loop-Sends (length (pending ++ p)) (pending ++ p) (concat ps) ds (omega arith) all
          (append_assoc pending p (concat ps) ∙ e) in
      let rest = writes-frames ps todo r.1 more stop joined in
      rw (writes, w, rest) (ap (λ (s : List Bytes). (s, [], taken)) (sym split))

-- However a stream of framed datagrams is cut into pieces for `Write`, the socket is given exactly the
-- datagrams, in order, and nothing is left over. A datagram has at most 1472 bytes, and the socket
-- takes each of them.
pub writes_sends :
    (accepts : Bytes → Bool) (ds ps : List Bytes)
    → All (λ d. (length d ≤ 1472) × (accepts d ≡ true)) ds
    → concat ps ≡ stream ds
    → writes accepts [] ps ≡ (ds, [], taken)
unfolding stream
writes_sends accepts [] ps all e = writes-frames accepts ps [] [] all (inl refl) e
writes_sends accepts (d ∷ ds) ps all e =
    let size = length-append (frame d) (stream ds) in
    writes-frames accepts ps (d ∷ ds) [] all (inr (omega (arith, size, length-frame d))) e
