-- ===== src/Relay/Server/Ring/Parked.antt =====
-- sail/relay/server.go: which circuits are parked, through a resume that is refused and a second park.
use mathlib.Core.Path.{subst}
use sailnet.Common.{ℕ, suc, ◌≡◌, refl, sym, ap, ◌∙◌, arith, List, [], ◌∷◌, inl, inr}
use sailnet.Common.{
  if◌then◌else◌, length, take, Bytes, bytes_eq, bytes_eq_refl, bytes_eq→eq, true, false, ◌==◌,
}
use sailnet.Common.{◌++◌, ◌⊎◌, Option, none, some, Bool-cases, Option-cases, ==_iff}
use sailnet.Wire.Cell.{Cell}
use sailnet.Wire.Resume.{Blake, resume_id, verify_resume}
use sailnet.Relay.Server.Circuit.{destroy}
use sailnet.Relay.Server.Ring.{
  Parks, find_park, delete_park, put_park, park, unpark, take_park, claim_park, handle_resume,
  serve_resume, refusal, stale,
}

-- Equal identities are found alike.
bytes_eq_sound : (x y : Bytes) → (bytes_eq x y ≡ true) → (z : Bytes) → bytes_eq x z ≡ bytes_eq y z
bytes_eq_sound x y e z = ap (λ w. bytes_eq w z) (bytes_eq→eq x y e)

find_park-delete_park :
    (id j : Bytes) (ps : List (Bytes × ℕ))
    → find_park j (delete_park id ps) ≡ (if bytes_eq id j then none else find_park j ps)
unfolding find_park delete_park
find_park-delete_park id j [] = ground arith
find_park-delete_park id j ((i, n) ∷ ps) =
    let ih = find_park-delete_park id j ps in
    elim (Bool-cases (bytes_eq i id)) [
      | inl e ↦ ground (arith, ih, e, bytes_eq_sound i id e j)
      | inr e ↦ elim (Bool-cases (bytes_eq id j)) [
        | inl d ↦
            let c : bytes_eq i j ≡ false =
              subst (λ w. bytes_eq i w ≡ false) (bytes_eq→eq id j d) e in
            ground (arith, ih, e, d, c)
        | inr d ↦ ground (arith, ih, e, d)
      ]
    ]

find_park-put_park :
    (id j : Bytes) (n : ℕ) (ps : List (Bytes × ℕ))
    → find_park j (put_park id n ps) ≡ (if bytes_eq id j then some n else find_park j ps)
unfolding find_park
find_park-put_park id j n ps = ground (arith, find_park-delete_park id j ps)

-- A circuit that is taken and put back is found as before.
put_back :
    (id j : Bytes) (n : ℕ) (ps : List (Bytes × ℕ))
    → find_park id ps ≡ some n
    → find_park j (put_park id n (delete_park id ps)) ≡ find_park j ps
put_back id j n ps f =
    let put = find_park-put_park id j n (delete_park id ps) in
    let left = find_park-delete_park id j ps in
    elim (Bool-cases (bytes_eq id j)) [
      | inl e ↦
          let same : find_park j ps ≡ some n =
            subst (λ w. find_park w ps ≡ some n) (bytes_eq→eq id j e) f in
          ground (arith, put, e, same)
      | inr e ↦ ground (arith, put, left, e)
    ]

take_park_first :
    (rounds : ℕ) (others : ℕ → Parks → Parks) (id : Bytes) (s : Parks) (n : ℕ)
    → find_park id s.parks ≡ some n
    → take_park (suc rounds) others id s ≡ (record s { parks = delete_park id s.parks }, some n)
unfolding take_park
take_park_first rounds others id s n f = rw (take_park, f) refl

module _ (h : Blake) where
  claim_park_refuses :
      (now link n : ℕ) (cell : Cell) (s : Parks) (j : Bytes)
      → find_park (take 32 cell.payload) s.parks ≡ some n
      → (claim_park h now cell link
          (record s { parks = delete_park (take 32 cell.payload) s.parks }, some n)).1
        ≡ none
      → let t =
          claim_park h now cell link
            (record s { parks = delete_park (take 32 cell.payload) s.parks }, some n) in
        (find_park j t.0.parks ≡ find_park j s.parks) × (t.0.circuits ≡ s.circuits) × (t.2 ≡ [])
  unfolding claim_park
  claim_park_refuses now link n cell s j f e =
      let back = put_back (take 32 cell.payload) j n s.parks f in
      elim (Option-cases (verify_resume h (s.circuits n).resume cell.payload)) [
        | inl v ↦ rw (claim_park, v) (back, refl, refl)
        | inr ((ts, recv), v) ↦ elim (Bool-cases (stale now ts)) [
          | inl o ↦ rw (claim_park, v, o) (back, refl, refl)
          | inr o ↦ absurd (ground (arith, e, v, o))
        ]
      ]

  handle_resume_refuses :
      (now link n : ℕ) (others : ℕ → Parks → Parks) (cell : Cell) (s : Parks) (j : Bytes)
      → find_park (take 32 cell.payload) s.parks ≡ some n
      → (handle_resume h now others cell link s).1 ≡ none
      → let t = handle_resume h now others cell link s in
        (find_park j t.0.parks ≡ find_park j s.parks) × (t.0.circuits ≡ s.circuits) × (t.2 ≡ [])
  unfolding handle_resume
  handle_resume_refuses now link n others cell s j f e =
      let found = take_park_first 29 others (take 32 cell.payload) s n f in
      elim (Bool-cases (length cell.payload == 80)) [
        | inl l ↦
            let run : handle_resume h now others cell link s
                ≡ claim_park h now cell link
                    (record s { parks = delete_park (take 32 cell.payload) s.parks }, some n) =
              rw (handle_resume, l, found) refl in
            subst
              (λ t.
                (find_park j t.0.parks ≡ find_park j s.parks)
                × (t.0.circuits ≡ s.circuits)
                × (t.2 ≡ []))
              (sym run) (claim_park_refuses now link n cell s j f (ap (λ t. t.1) (sym run) ∙ e))
        | inr l ↦ rw (handle_resume, l) (refl, refl, refl)
      ]

  abbrev pub IsUnproved : ℕ → Cell → Bytes → Type 0
  IsUnproved now cell key =
      ((length cell.payload == 80) ≡ false)
      ⊎ ((verify_resume h key cell.payload ≡ none)
          ⊎ ((ts : ℕ) × (recv : ℕ) × (verify_resume h key cell.payload ≡ some (ts, recv))
              × (stale now ts ≡ true)))

  claim_park_unproved :
      (now link n : ℕ) (cell : Cell) (s : Parks)
      → ((verify_resume h (s.circuits n).resume cell.payload ≡ none)
          ⊎ ((ts : ℕ) × (recv : ℕ) × (verify_resume h (s.circuits n).resume cell.payload
                ≡ some (ts, recv))
              × (stale now ts ≡ true)))
      → (claim_park h now cell link (s, some n)).1 ≡ none
  unfolding claim_park
  claim_park_unproved now link n cell s (inl v) = rw (claim_park, v) refl
  claim_park_unproved now link n cell s (inr (ts, recv, v, o)) = rw (claim_park, v, o) refl

  unproved_fails :
      (now link n : ℕ) (others : ℕ → Parks → Parks) (cell : Cell) (s : Parks)
      → find_park (take 32 cell.payload) s.parks ≡ some n
      → IsUnproved now cell (s.circuits n).resume
      → (handle_resume h now others cell link s).1 ≡ none
  unfolding handle_resume
  unproved_fails now link n others cell s f u =
      let found = take_park_first 29 others (take 32 cell.payload) s n f in
      elim (Bool-cases (length cell.payload == 80)) [
        | inr l ↦ rw (handle_resume, l) refl
        | inl l ↦ elim u [
          | inl x ↦ absurd (ground (arith, l, x))
          | inr v ↦
              rw (handle_resume, l, found)
                (claim_park_unproved now link n cell
                  (record s { parks = delete_park (take 32 cell.payload) s.parks }) v)
        ]
      ]

  -- A resume that is not proved - its payload too short or long, not proved under the circuit's key, or of
  -- another time - takes nothing from the circuit's owner: when the circuit is parked, every circuit of the
  -- server and of the connection stays as it is, every parked circuit is found as before, and the error
  -- "nothing to resume" is all that is written.
  pub serve_resume_refuses :
      (now link n : ℕ) (others : ℕ → Parks → Parks) (cell : Cell) (circs : ℕ → Option ℕ) (s : Parks)
      (j : Bytes)
      → find_park (take 32 cell.payload) s.parks ≡ some n
      → IsUnproved now cell (s.circuits n).resume
      → let (circs', t, cells) = serve_resume h now others cell link circs s in
        (circs' ≡ circs)
        × (find_park j t.parks ≡ find_park j s.parks)
        × (t.circuits ≡ s.circuits)
        × (cells ≡ refusal cell ∷ [])
  unfolding serve_resume
  serve_resume_refuses now link n others cell circs s j f u =
      let none_found = unproved_fails now link n others cell s f u in
      let (parks, circuits, written) =
        handle_resume_refuses now link n others cell s j f none_found in
      rw (serve_resume, none_found)
        (refl, parks, circuits, ap (λ (w : List Cell). w ++ (refusal cell ∷ [])) written)

  -- When the link of a parked circuit has come back and drops again, the function that the first park
  -- left to run closes the circuit at its own time, however short the second park has lasted, and the
  -- client's second resume finds nothing.
  pub unpark-park :
      (now n w : ℕ) (s : Parks)
      → (s.circuits n).closed ≡ false
      → (s.circuits n).next ≡ some w
      → let t = (unpark h n (park h now n s).0).0 in
        ((t.circuits n).closed ≡ true)
        × (find_park (resume_id h (s.circuits n).resume) t.parks ≡ none)
  unfolding unpark park destroy
  unpark-park now n w s c x =
      let id = resume_id h (s.circuits n).resume in
      ground (
        arith,
        c,
        x,
        find_park-put_park id id n s.parks,
        find_park-delete_park id id (put_park id n s.parks),
        bytes_eq_refl id,
        ==_iff n n,
      )
