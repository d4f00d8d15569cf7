-- ===== src/Nano/State/Heights.antt =====
-- sail/nano/state.go: what the cache says of the height of the chain.
use sailnet.Common.{ℕ, ◌≤◌, ◌≡◌, refl, arith, Bytes, false, Option, some, bytes_eq_refl}
use sailnet.Common.{◌==◌, leb, if◌then◌else◌}
use sailnet.Common.{List, [], ◌∷◌, All}
use sailnet.Nano.State.{
  ChainState, View, same_frontier, record_state, set, set_from_ledger, set_height,
}

-- What can happen to the cache while its frontier stays: a read of the ledger that reports it, and a
-- height learned on the side. A block of ours moves the frontier.
pub data Event : Type 0 where
  ledger_read : View → ℕ → ℕ → Event
  height_read : ℕ → Event
  block_sent : View → ℕ → Event

pub step : Option ChainState → Event → Option ChainState
step s (ledger_read v h now) = set_from_ledger s v h now
step s (height_read h) = set_height s h
step s (block_sent v now) = set s v now

pub run : Option ChainState → List Event → Option ChainState
unfolding step
run s [] = s
run s (e ∷ es) = run (step s e) es

-- The events that leave the cache at the frontier `f`.
abbrev pub StaysAt : Bytes → Event → Type 0
StaysAt f (ledger_read v h now) = v.previous ≡ f
StaysAt f (height_read h) = Unit
StaysAt f (block_sent v now) = ⊥

pub step_height :
    (s : ChainState) (f : Bytes) (e : Event)
    → s.frontier ≡ some f
    → StaysAt f e
    → (t : ChainState) × (step (some s) e ≡ some t) × (t.frontier ≡ some f) × (s.height ≤ t.height)
unfolding step set_from_ledger set_height record_state same_frontier
step_height s f (ledger_read v h now) hf hv =
    (record_state s v h false now, refl, ground arith, ground (arith, bytes_eq_refl f))
step_height s f (height_read h) hf hv = (
  (if h == 0 then s else (if leb h s.height then s else record s { height = h })),
  refl,
  ground arith,
  ground arith,
)
step_height s f (block_sent v now) hf h = absurd h

-- For every cached state at a frontier and every sequence of ledger reads that report that frontier
-- and of heights learned on the side: the state stays at the frontier, and its height never shrinks.
pub height_never_shrinks :
    (s : ChainState) (f : Bytes) (es : List Event)
    → s.frontier ≡ some f
    → All (StaysAt f) es
    → (t : ChainState) × (run (some s) es ≡ some t) × (t.frontier ≡ some f) × (s.height ≤ t.height)
unfolding run
height_never_shrinks s f [] hf h = (s, refl, hf, omega arith)
height_never_shrinks s f (e ∷ es) hf (he, hes) =
    let (t, ht, tf, le) = step_height s f e hf he in
    let (u, hu, uf, le') = height_never_shrinks t f es tf hes in
    (u, ground (arith, ht, hu), uf, omega (arith, le, le'))
