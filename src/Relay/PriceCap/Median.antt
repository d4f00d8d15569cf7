-- ===== src/Relay/PriceCap/Median.antt =====
-- sail/relay/pricecap.go: what the cap lets through, and what one top-up may cost.
use sailnet.Common.{ℕ, zero, suc, ◌+◌, ◌*◌, ◌/◌, ◌≤◌, ◌<◌, ◌≡◌, refl, ap, ◌∙◌, arith}
use sailnet.Common.{List, [], ◌∷◌, ltb, leb, if◌then◌else◌, some}
use sailnet.Common.{length, ◌⊎◌, All}
use sailnet.Relay.PriceCap.{insert_sorted, sort, Peer, Server, nth}
use sailnet.Relay.PriceCap.{median, cap_multiple, max_uint32, cap_of, next_hop_cap, over_priced}
use sailnet.Relay.PriceCap.{cap_top_up}

-- One top-up takes no more than there is, and no more than half of it unless a base pool costs more;
-- and it is the whole amount asked for wherever that keeps to these limits.
pub cap_top_up_bounds :
    (amount base avail : ℕ)
    → (cap_top_up amount (some base) avail ≤ avail)
      × (cap_top_up amount (some base) avail ≤ amount)
      × ((cap_top_up amount (some base) avail ≤ avail / 2)
          ⊎ (cap_top_up amount (some base) avail ≤ base))
      × (amount ≤ avail / 2 → cap_top_up amount (some base) avail ≡ amount)
      × (amount ≤ base → amount ≤ avail → cap_top_up amount (some base) avail ≡ amount)
unfolding cap_top_up
cap_top_up_bounds amount base avail =
    (ground arith, ground arith, ground arith, ground arith, ground arith)

-- How many rates of a list are at most `m`.
abbrev pub at_most : ℕ → List ℕ → ℕ
at_most m [] = 0
at_most m (x ∷ r) = (if leb x m then 1 else 0) + at_most m r

at_most-insert : (m x : ℕ) (l : List ℕ) → at_most m (insert_sorted x l) ≡ at_most m (x ∷ l)
unfolding insert_sorted
at_most-insert m x [] = refl
at_most-insert m x (y ∷ r) = ground (arith, at_most-insert m x r)

at_most-sort : (m : ℕ) (l : List ℕ) → at_most m (sort l) ≡ at_most m l
unfolding sort
at_most-sort m [] = refl
at_most-sort m (x ∷ r) =
    at_most-insert m x (sort r) ∙ ap (λ (t : ℕ). (if leb x m then 1 else 0) + t) (at_most-sort m r)

abbrev IsSorted : List ℕ → Type 0
IsSorted [] = Unit
IsSorted (x ∷ r) = All (λ y. x ≤ y) r × IsSorted r

All-insert :
    (a x : ℕ) (l : List ℕ) → a ≤ x → All (λ y. a ≤ y) l → All (λ y. a ≤ y) (insert_sorted x l)
unfolding insert_sorted
All-insert a x [] h k = (h, tt)
All-insert a x (y ∷ r) h (hy, k) = ground (arith, All-insert a x r h k)

All-weaken : (a b : ℕ) (l : List ℕ) → a ≤ b → All (λ y. b ≤ y) l → All (λ y. a ≤ y) l
All-weaken a b [] h k = tt
All-weaken a b (y ∷ r) h (hy, k) = (omega arith, All-weaken a b r h k)

insert-IsSorted : (x : ℕ) (l : List ℕ) → IsSorted l → IsSorted (insert_sorted x l)
unfolding insert_sorted
insert-IsSorted x [] s = (tt, tt)
insert-IsSorted x (y ∷ r) (h, s) =
    ground (arith, insert-IsSorted x r s, All-insert y x r, All-weaken x y r)

sort-IsSorted : (l : List ℕ) → IsSorted (sort l)
unfolding sort
sort-IsSorted [] = tt
sort-IsSorted (x ∷ r) = insert-IsSorted x (sort r) (sort-IsSorted r)

nth-ge : (a i : ℕ) (l : List ℕ) → All (λ y. a ≤ y) l → i < length l → a ≤ nth i l
nth-ge a i [] h k = absurd (omega arith)
nth-ge a zero (y ∷ r) h k = h.0
nth-ge a (suc i) (y ∷ r) h k = nth-ge a i r h.1 (omega arith)

-- In a sorted list, the entries up to the i-th are at most it.
nth-at_most : (i : ℕ) (l : List ℕ) → IsSorted l → i < length l → i < at_most (nth i l) l
nth-at_most i [] s h = absurd (omega arith)
nth-at_most zero (x ∷ r) s h = ground arith
nth-at_most (suc i) (x ∷ r) s h =
    ground (arith, nth-at_most i r s.1 (omega arith), nth-ge x i r s.0 (omega arith))

length-insert : (x : ℕ) (l : List ℕ) → length (insert_sorted x l) ≡ suc (length l)
unfolding insert_sorted
length-insert x [] = refl
length-insert x (y ∷ r) = ground (arith, length-insert x r)

length-sort : (l : List ℕ) → length (sort l) ≡ length l
unfolding sort
length-sort [] = refl
length-sort (x ∷ r) = length-insert x (sort r) ∙ ap suc (length-sort r)

median-at_most : (l : List ℕ) → 0 < length l → length l / 2 < at_most (median l) l
unfolding median
median-at_most l h =
    let i = length l / 2 in
    omega (
      arith,
      at_most-sort (nth i (sort l)) l,
      nth-at_most i (sort l) (sort-IsSorted l) (omega (arith, length-sort l)),
    )

at_most_mono : (a b : ℕ) (l : List ℕ) → a ≤ b → at_most a l ≤ at_most b l
at_most_mono a b [] h = omega arith
at_most_mono a b (x ∷ r) h = ground (arith, at_most_mono a b r h)

nth-le : (b i : ℕ) (l : List ℕ) → All (λ y. y ≤ b) l → nth i l ≤ b
nth-le b i [] h = omega arith
nth-le b zero (x ∷ r) h = h.0
nth-le b (suc i) (x ∷ r) h = nth-le b i r h.1

All-insert_le :
    (b x : ℕ) (l : List ℕ) → x ≤ b → All (λ y. y ≤ b) l → All (λ y. y ≤ b) (insert_sorted x l)
unfolding insert_sorted
All-insert_le b x [] h k = (h, tt)
All-insert_le b x (y ∷ r) h (hy, k) = ground (arith, All-insert_le b x r h k)

All-sort_le : (b : ℕ) (l : List ℕ) → All (λ y. y ≤ b) l → All (λ y. y ≤ b) (sort l)
unfolding sort
All-sort_le b [] h = tt
All-sort_le b (x ∷ r) (hx, h) = All-insert_le b x (sort r) hx (All-sort_le b r h)

-- The cap over a list of published prices never shuts out the market: more than half of the prices
-- are at most the cap. It is five times the median where that fits a uint32, and never more. The
-- list is not empty and the prices are uint32s.
pub cap_of_majority :
    (l : List ℕ)
    → 0 < length l
    → All (λ y. y ≤ max_uint32) l
    → (length l / 2 < at_most (cap_of l) l)
      × (cap_of l ≤ max_uint32)
      × (cap_of l ≤ median l * cap_multiple)
unfolding cap_of
cap_of_majority [] h u = absurd (omega arith)
cap_of_majority (x ∷ r) h u =
    let m = median (x ∷ r) in
    let small : m ≤ max_uint32 =
      unfold median in
      nth-le max_uint32 (length (x ∷ r) / 2) (sort (x ∷ r)) (All-sort_le max_uint32 (x ∷ r) u) in
    ground (
      arith,
      small,
      median-at_most (x ∷ r) h,
      at_most_mono m (m * 5) (x ∷ r) (omega arith),
      at_most_mono m max_uint32 (x ∷ r) small,
    )

-- A peer is over-priced exactly when there is a cap and its price is above it, and with the operator's
-- own setting the cap is that setting, whatever the market says.
pub over_priced_operator :
    (s : Server) (p : Peer)
    → 0 < s.max_next_rate
    → ((over_priced s (some p)).1 ≡ s.max_next_rate)
      × ((over_priced s (some p)).0 ≡ ltb s.max_next_rate p.min_rate)
unfolding over_priced next_hop_cap
over_priced_operator s p h = ground arith
