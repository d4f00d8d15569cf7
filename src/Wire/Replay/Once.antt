-- ===== src/Wire/Replay/Once.antt =====
-- sail/wire/cell.go: a sequence number is accepted at most once.
use sailnet.Common.{ℕ, zero, suc, ◌+◌, ◌-◌, ◌*◌, ◌/◌, ◌%◌, ◌^◌, ◌≤◌, ◌<◌, ◌≡◌, ◌≢◌, ap, ◌∙◌, arith}
use sailnet.Common.{List, [], ◌∷◌, true, false, ◌⊎◌, inl, inr, Bool-cases, word}
use sailnet.Common.{if◌then◌else◌, All}
use native.Mathlib.Nat.{pow-suc, mod-lt, mod-eq_of_lt, div-add-mod, add-mul-mod_self_left}
use sailnet.Wire.Replay.{ReplayWindow, shl, has_bit, set_bit, accept}

split_mod : (x p : ℕ) → 0 < p → x % (p * 2) ≡ x / 2 % p * 2 + x % 2
split_mod x p h =
    let r = x / 2 % p * 2 + x % 2 in
    let small : x / 2 % p < p = mod-lt (x / 2) h in
    let whole : x ≡ r + p * 2 * (x / 2 / p) =
      omega (arith, ap (λ (t : ℕ). t * 2) (div-add-mod (x / 2) p)) in
    ap (λ (t : ℕ). t % (p * 2)) whole
    ∙ add-mul-mod_self_left r (p * 2) (x / 2 / p)
    ∙ mod-eq_of_lt (omega arith)

half_mod : (x p : ℕ) → 0 < p → x % (p * 2) / 2 ≡ x / 2 % p
half_mod x p h = omega (arith, split_mod x p h)

parity_mod : (x p : ℕ) → x % (p * 2) % 2 ≡ x % 2
parity_mod x p = ground arith

pow-pos : (w : ℕ) → 0 < 2 ^ w
pow-pos zero = omega arith
pow-pos (suc w) = rw pow-suc (omega (arith, pow-pos w))

-- Below the width, a bit survives the drop of the bits above.
has_bit-mod : (w x k : ℕ) → k < w → has_bit (x % 2 ^ w) k ≡ has_bit x k
unfolding has_bit
has_bit-mod zero x k h = absurd (omega arith)
has_bit-mod (suc w) x zero h = rw pow-suc (rw parity_mod)
has_bit-mod (suc w) x (suc k) h =
    rw (pow-suc, half_mod x (2 ^ w) (pow-pos w)) (has_bit-mod w (x / 2) k (omega arith))

set_half : (x k : ℕ) → set_bit x (suc k) / 2 ≡ set_bit (x / 2) k
unfolding set_bit
set_half x k = omega arith

has_bit-set_self : (x k : ℕ) → has_bit (set_bit x k) k ≡ true
unfolding has_bit
has_bit-set_self x zero = unfold set_bit in ground arith
has_bit-set_self x (suc k) = rw set_half (has_bit-set_self (x / 2) k)

has_bit-set_mono : (x j k : ℕ) → has_bit x k ≡ true → has_bit (set_bit x j) k ≡ true
unfolding has_bit
has_bit-set_mono x zero zero h = unfold set_bit in ground arith
has_bit-set_mono x zero (suc k) h =
    let e : (x / 2 * 2 + 1) / 2 ≡ x / 2 = omega arith in unfold set_bit in rw e h
has_bit-set_mono x (suc j) zero h = unfold set_bit in ground arith
has_bit-set_mono x (suc j) (suc k) h = rw set_half (has_bit-set_mono (x / 2) j k h)

-- A shift moves a bit up, as long as it stays below the top.
has_bit-double : (x k : ℕ) → suc k < 64 → has_bit (x * 2 % word) (suc k) ≡ has_bit x k
has_bit-double x k h =
    has_bit-mod 64 (x * 2) (suc k) h ∙ (unfold has_bit in ap (λ (t : ℕ). has_bit t k) (omega arith))

has_bit-shl : (s x k : ℕ) → s + k < 64 → has_bit (shl x s) (s + k) ≡ has_bit x k
unfolding shl
has_bit-shl zero x k h = ap (has_bit x) (omega arith)
has_bit-shl (suc s) x k h =
    ap (has_bit (shl (x * 2 % word) s)) (omega arith)
    ∙ has_bit-shl s (x * 2 % word) (suc k) (omega arith)
    ∙ has_bit-double x k (omega arith)

-- A number that the window has dealt with: too old to be taken, or marked.
abbrev pub IsSpent : ReplayWindow → ℕ → Type 0
IsSpent w seq = (seq ≤ w.high) × ((64 ≤ w.high - seq) ⊎ (has_bit w.bits (w.high - seq) ≡ true))

-- An accepted number is spent.
pub accept-IsSpent :
    (w : ReplayWindow) (seq : ℕ) → (accept w seq).1 ≡ true → IsSpent (accept w seq).0 seq
unfolding accept
accept-IsSpent w seq h = ground (
  arith,
  has_bit-set_self w.bits (w.high - seq),
  has_bit-set_self (shl w.bits (seq - w.high)) 0,
  has_bit-set_self 0 0,
)

-- A spent number is refused.
pub IsSpent-refused : (w : ReplayWindow) (seq : ℕ) → IsSpent w seq → (accept w seq).1 ≡ false
unfolding accept
IsSpent-refused w seq h = ground arith

moved_bit :
    (b s d : ℕ) → s + d < 64 → has_bit b d ≡ true → has_bit (set_bit (shl b s) 0) (s + d) ≡ true
moved_bit b s d h e = has_bit-set_mono (shl b s) 0 (s + d) (has_bit-shl s b d h ∙ e)

-- Whatever number comes next, a spent number stays spent.
pub accept-keeps_IsSpent :
    (w : ReplayWindow) (seq other : ℕ) → IsSpent w seq → IsSpent (accept w other).0 seq
unfolding accept
accept-keeps_IsSpent w seq other h =
    let gap : w.high < other → other - w.high + (w.high - seq) ≡ other - seq = λ q. omega arith in
    ground (
      arith,
      gap,
      moved_bit w.bits (other - w.high) (w.high - seq),
      has_bit-set_mono w.bits (w.high - other) (w.high - seq),
    )

-- The window after a list of numbers, and the numbers that it took.
pub accept_all : ReplayWindow → List ℕ → ReplayWindow × List ℕ
accept_all w [] = (w, [])
accept_all w (s ∷ r) =
    let (w', ok) = accept w s in
    let (w'', taken) = accept_all w' r in (w'', if ok then s ∷ taken else taken)

abbrev pub Without : ℕ → List ℕ → Type 0
Without a = All (λ b. b ≢ a)

-- No number occurs twice.
abbrev pub Distinct : List ℕ → Type 0
Distinct [] = Unit
Distinct (x ∷ xs) = Without x xs × Distinct xs

accept_all-Without :
    (w : ReplayWindow) (a : ℕ) (r : List ℕ) → IsSpent w a → Without a (accept_all w r).1
unfolding accept_all
accept_all-Without w a [] h = tt
accept_all-Without w a (s ∷ r) h =
    let rest = accept_all-Without (accept w s).0 a r (accept-keeps_IsSpent w a s h) in
    elim (Bool-cases (accept w s).1) [
      | inl yes_taken ↦
          rw yes_taken
            ((λ e. cc (yes_taken, IsSpent-refused w a h, ap (λ (t : ℕ). (accept w t).1) e)), rest)
      | inr not_taken ↦ rw not_taken rest
    ]

-- The window accepts each sequence number at most once: from any window state, and for any list of
-- incoming numbers, no number occurs twice among those that were accepted.
pub accept_all-Distinct : (w : ReplayWindow) (r : List ℕ) → Distinct (accept_all w r).1
unfolding accept_all
accept_all-Distinct w [] = tt
accept_all-Distinct w (s ∷ r) =
    let rest = accept_all-Distinct (accept w s).0 r in
    elim (Bool-cases (accept w s).1) [
      | inl yes_taken ↦
          rw yes_taken (accept_all-Without (accept w s).0 s r (accept-IsSpent w s yes_taken), rest)
      | inr not_taken ↦ rw not_taken rest
    ]

-- A number above the highest seen, other than 0, is always accepted, and becomes the highest.
pub accept_fresh :
    (w : ReplayWindow) (seq : ℕ)
    → seq ≢ 0
    → w.high < seq
    → ((accept w seq).1 ≡ true) × ((accept w seq).0.high ≡ seq)
unfolding accept
accept_fresh w seq n h = ground arith
