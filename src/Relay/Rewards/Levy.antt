-- ===== src/Relay/Rewards/Levy.antt =====
-- sail/relay/rewards.go: paying the levy, and being found to have paid it.
use mathlib.Core.Path.{subst}
use Prim.Native.String.{String}
use text.Mathlib.TextEquality.{eq_iff}
use sailnet.Common.{
  ℕ, ◌+◌, ◌-◌, ◌≤◌, ◌<◌, ◌≡◌, refl, sym, arith, List, [], ◌∷◌, Bool, true, false, some, All,
}
use sailnet.Common.{ltb, lookup, insert, lookup-insert}
use sailnet.Relay.Rewards.{
  EpochRelay, Relays, Payouts, dust, owed_to, sent_to, row_of, total_owed, paid_of, fill_paid,
  compliant, pay_loop,
}

-- The ledger once these sends are on it.
pub ledger_after : List (String × ℕ) → List (String × ℕ) → List (String × ℕ)
ledger_after sent [] = sent
ledger_after sent ((to, amount) ∷ xs) = ledger_after (insert to (sent_to to sent + amount) sent) xs

sent_after :
    (to : String) (sent xs : List (String × ℕ))
    → sent_to to (ledger_after sent xs) ≡ sent_to to sent + owed_to to xs
unfolding ledger_after owed_to
sent_after to sent [] = omega arith
sent_after to sent ((k, v) ∷ xs) = ground (
  arith,
  sent_after to (insert k (sent_to k sent + v) sent) xs,
  lookup-insert k to (sent_to k sent + v) sent,
  eq_iff k to,
)

-- Up to dust, what `xs` adds to `sent` covers what is owed.
abbrev pub Covered : List (String × ℕ) → List (String × ℕ) → List (String × ℕ) → Type 0
Covered sent xs [] = Unit
Covered sent xs ((to, owed) ∷ m) =
    (owed < sent_to to sent + owed_to to xs + dust) × Covered sent xs m

Covered-more :
    (sent xs m : List (String × ℕ)) (k : String) (v : ℕ)
    → Covered sent xs m
    → Covered sent ((k, v) ∷ xs) m
unfolding owed_to
Covered-more sent xs [] k v h = tt
Covered-more sent xs ((to, owed) ∷ m) k v (h, hs) =
    (ground (arith, h), Covered-more sent xs m k v hs)

pay_covers :
    (send : String → ℕ → Bool) (sent m : List (String × ℕ))
    → (pay_loop send sent m).1 ≡ false
    → Covered sent (pay_loop send sent m).0 m
unfolding pay_loop owed_to
pay_covers send sent [] h = tt
pay_covers send sent ((to, owed) ∷ m) h =
    go (ltb (owed - sent_to to sent) dust) (send to (owed - sent_to to sent)) refl refl h
      (pay_covers send sent m)
  where
    rest : List (String × ℕ) × Bool
    rest = pay_loop send sent m

    go :
        (a b : Bool)
        → ltb (owed - sent_to to sent) dust ≡ a
        → send to (owed - sent_to to sent) ≡ b
        → (pay_loop send sent ((to, owed) ∷ m)).1 ≡ false
        → (rest.1 ≡ false → Covered sent rest.0 m)
        → Covered sent (pay_loop send sent ((to, owed) ∷ m)).0 ((to, owed) ∷ m)
    go true b e f h ih =
        let same : pay_loop send sent ((to, owed) ∷ m) ≡ rest = ground (arith, e) in
        subst (λ p. Covered sent p.0 ((to, owed) ∷ m)) (sym same)
          (ground (arith, e), ih (ground (arith, same, h)))
    go false true e f h ih =
        let same : pay_loop send sent ((to, owed) ∷ m)
            ≡ ((to, owed - sent_to to sent) ∷ rest.0, rest.1) =
          ground (arith, e, f) in
        subst (λ p. Covered sent p.0 ((to, owed) ∷ m)) (sym same)
          (
            ground (arith, eq_iff to to),
            Covered-more sent rest.0 m to (owed - sent_to to sent) (ih (ground (arith, same, h))),
          )
    go false false e f h ih = absurd (ground (arith, e, f, h))

Covered-pays_nothing :
    (send : String → ℕ → Bool) (sent xs m : List (String × ℕ))
    → Covered sent xs m
    → pay_loop send (ledger_after sent xs) m ≡ ([], false)
unfolding pay_loop
Covered-pays_nothing send sent xs [] h = refl
Covered-pays_nothing send sent xs ((to, owed) ∷ m) (h, hs) =
    ground (arith, h, sent_after to sent xs, Covered-pays_nothing send sent xs m hs)

-- Paying is idempotent: when no send of a round fails, a second round, over the ledger that shows
-- the sends of the first, sends nothing.
pub pay_twice :
    (send again : String → ℕ → Bool) (sent owed : List (String × ℕ))
    → (pay_loop send sent owed).1 ≡ false
    → pay_loop again (ledger_after sent (pay_loop send sent owed).0) owed ≡ ([], false)
pay_twice send again sent owed h =
    Covered-pays_nothing again sent (pay_loop send sent owed).0 owed (pay_covers send sent owed h)

paid_in_full :
    (sent m : List (String × ℕ))
    → All (λ x. x.1 ≤ sent_to x.0 sent) m
    → paid_of sent m ≡ total_owed m
unfolding paid_of total_owed
paid_in_full sent [] h = refl
paid_in_full sent ((to, owed) ∷ m) (h, hs) = omega (arith, h, paid_in_full sent m hs)

lookup-fill_paid :
    (j : String) (t : Payouts) (rs : Relays) (r : EpochRelay)
    → lookup j rs ≡ some r
    → lookup j (fill_paid t rs) ≡ some (record r { paid = paid_of r.paid_to (row_of j t) })
unfolding lookup fill_paid
lookup-fill_paid j t [] r h = cc
lookup-fill_paid j t ((k, q) ∷ rs) r h = ground (arith, eq_iff k j, lookup-fill_paid j t rs r)

-- A relay of the table whose rewarded sends reach, recipient by recipient, what it owes is found
-- compliant.
pub paid_is_compliant :
    (j : String) (t : Payouts) (rs : Relays) (r : EpochRelay)
    → lookup j rs ≡ some r
    → All (λ x. x.1 ≤ sent_to x.0 r.paid_to) (row_of j t)
    → compliant (fill_paid t rs) t j ≡ true
unfolding compliant
paid_is_compliant j t rs r h a =
    ground (arith, lookup-fill_paid j t rs r h, paid_in_full r.paid_to (row_of j t) a)
