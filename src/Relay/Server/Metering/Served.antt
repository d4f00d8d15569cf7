-- ===== src/Relay/Server/Metering/Served.antt =====
-- sail/relay/server.go: what the actions on a batch do with its cells.
use Prim.Native.String.{String}
use text.Mathlib.Text.{◌==◌ as str_eq}
use sailnet.Common.{ℕ, ◌+◌, ◌*◌, ◌≡◌, refl, ap, ◌∙◌, arith, append-nil}
use sailnet.Relay.Server.Conn.Order.{given}
use sailnet.Common.{List, [], ◌∷◌, ◌++◌, All, Bool, true, false, Option, none, some, if◌then◌else◌}
use sailnet.Common.{Bytes, length}
use sailnet.Wire.Cell.{Cell}
use sailnet.Relay.Server.Metering.{
  Action, delivers, writes, forwards, meters, acts, forward, act_all,
}

-- An action that uses the circuit's service: cells forwarded, or a cell of this hop acted on.
abbrev pub serves : Action → Bool
serves (delivers d) = false
serves (writes w cell) = false
serves (forwards w cells) = true
serves (meters acct n) = true
serves (acts cmd sid text) = true

abbrev pub NoService : List Action → Type 0
NoService = All λ x. serves x ≡ false

pub NoService-append : (xs ys : List Action) → NoService xs → NoService ys → NoService (xs ++ ys)
NoService-append [] ys h k = k
NoService-append (x ∷ xs) ys (h, hs) k = (h, NoService-append xs ys hs k)

-- What the actions do: the cells that leave for a next hop, each with its link; the bytes that are metered
-- at the pool of an account; and the cells of this hop that are acted on.
pub forwarded : List Action → List (ℕ × Cell)
unfolding given
forwarded [] = []
forwarded (forwards w cells ∷ xs) = given w cells ++ forwarded xs
forwarded (delivers d ∷ xs) = forwarded xs
forwarded (writes w cell ∷ xs) = forwarded xs
forwarded (meters acct n ∷ xs) = forwarded xs
forwarded (acts cmd sid text ∷ xs) = forwarded xs

pub metered : String → List Action → ℕ
metered acct [] = 0
metered acct (meters x n ∷ xs) =
    let rest = metered acct xs in if str_eq x acct then n + rest else rest
metered acct (forwards w cells ∷ xs) = metered acct xs
metered acct (delivers d ∷ xs) = metered acct xs
metered acct (writes w cell ∷ xs) = metered acct xs
metered acct (acts cmd sid text ∷ xs) = metered acct xs

pub acted : List Action → List (ℕ × ℕ × Bytes)
acted [] = []
acted (acts cmd sid text ∷ xs) = (cmd, sid, text) ∷ acted xs
acted (forwards w cells ∷ xs) = acted xs
acted (delivers d ∷ xs) = acted xs
acted (writes w cell ∷ xs) = acted xs
acted (meters acct n ∷ xs) = acted xs

-- Actions that serve nothing do not count.
skips :
    (acct : String) (xs ys : List Action)
    → NoService xs
    → (forwarded (xs ++ ys) ≡ forwarded ys)
      × (metered acct (xs ++ ys) ≡ metered acct ys)
      × (acted (xs ++ ys) ≡ acted ys)
unfolding forwarded metered acted
skips acct [] ys h = (refl, refl, refl)
skips acct (delivers d ∷ xs) ys (h, hs) = skips acct xs ys hs
skips acct (writes w cell ∷ xs) ys (h, hs) = skips acct xs ys hs
skips acct (forwards w cells ∷ xs) ys (h, hs) = absurd (ground (arith, h))
skips acct (meters x n ∷ xs) ys (h, hs) = absurd (ground (arith, h))
skips acct (acts cmd sid text ∷ xs) ys (h, hs) = absurd (ground (arith, h))

-- What the cells of this hop add.
acts_add :
    (acct : String) (ts : List (ℕ × ℕ × Bytes))
    → (forwarded (act_all ts) ≡ []) × (metered acct (act_all ts) ≡ 0) × (acted (act_all ts) ≡ ts)
unfolding forwarded metered acted act_all
acts_add acct [] = (refl, refl, refl)
acts_add acct ((cmd, sid, text) ∷ ts) =
    let (f, m, d) = acts_add acct ts in (f, m, ap (λ r. (cmd, sid, text) ∷ r) d)

-- A batch is served: all of `fwd` leaves for the next hop, if there is one, and is metered, 1024 bytes for
-- each, at the pool of the next hop and no other; and all of `terms` is acted on.
pub record IsServed (next : Option ℕ) (pool : String) (fwd : List Cell)
    (terms : List (ℕ × ℕ × Bytes)) (xs : List Action) : Type 0 where
  pub leaves : forwarded xs ≡ (elim next [ none ↦ [] | some w ↦ given w fwd ])
  pub costs :
      (acct : String)
      → metered acct xs
        ≡ (elim next [ none ↦ 0 | some w ↦ if str_eq pool acct then length fwd * 1024 else 0 ])
  pub done : acted xs ≡ terms

pub forward-IsServed :
    (next : Option ℕ) (pool : String) (fwd : List Cell) (terms : List (ℕ × ℕ × Bytes))
    → IsServed next pool fwd terms (forward next pool fwd ++ act_all terms)
unfolding forward forwarded metered acted given
forward-IsServed none pool [] terms = record {
  leaves = (acts_add pool terms).0;
  costs = λ acct. (acts_add acct terms).1;
  done = (acts_add pool terms).2;
}
forward-IsServed (some w) pool [] terms = record {
  leaves = (acts_add pool terms).0;
  costs = λ acct. ground (arith, (acts_add acct terms).1);
  done = (acts_add pool terms).2;
}
forward-IsServed none pool (x ∷ fwd) terms = record {
  leaves = (acts_add pool terms).0;
  costs = λ acct. (acts_add acct terms).1;
  done = (acts_add pool terms).2;
}
forward-IsServed (some w) pool (x ∷ fwd) terms = record {
  leaves =
      ap (λ r. given w (x ∷ fwd) ++ r) (acts_add pool terms).0 ∙ append-nil (given w (x ∷ fwd));
  costs = λ acct. ground (arith, (acts_add acct terms).1);
  done = (acts_add pool terms).2;
}

pub skips-IsServed :
    (next : Option ℕ) (pool : String) (fwd : List Cell) (terms : List (ℕ × ℕ × Bytes))
    (xs ys : List Action)
    → NoService xs
    → IsServed next pool fwd terms ys
    → IsServed next pool fwd terms (xs ++ ys)
skips-IsServed next pool fwd terms xs ys h s = record {
  leaves = (skips pool xs ys h).0 ∙ s.leaves;
  costs = λ acct. (skips acct xs ys h).1 ∙ s.costs acct;
  done = (skips pool xs ys h).2 ∙ s.done;
}
