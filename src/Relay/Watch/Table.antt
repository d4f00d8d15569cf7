-- ===== src/Relay/Watch/Table.antt =====
-- sail/relay/watch.go: how many accounts a connection watches, and who is told of a confirmation.
use Prim.Native.String.{String}
use text.Mathlib.TextEquality.{eq_iff}
use sailnet.Common.{ℕ, ◌+◌, ◌≤◌, ◌≡◌, ◌≢◌, refl, ◌∙◌, arith}
use sailnet.Common.{List, [], ◌∷◌, ◌++◌, Bool, true, false, ◌||◌, ◌==◌, ==_iff, if◌then◌else◌}
use sailnet.Common.{lookup, insert, All}
use sailnet.Relay.Watch.{
  Subs, has, add, delete, conns_of, watching, watch, entry, unwatch, union, targets,
}

abbrev one_if : Bool → ℕ
one_if true = 1
one_if false = 0

has-add : (i j : ℕ) (js : List ℕ) → has j (add i js) ≡ (i == j) || has j js
unfolding add has
has-add i j js = ground (arith, ==_iff i j)

has-delete : (i j : ℕ) (js : List ℕ) → has j (delete i js) ≡ (if i == j then false else has j js)
unfolding delete has
has-delete i j [] = ground arith
has-delete i j (k ∷ js) = ground (arith, has-delete i j js, ==_iff i j, ==_iff k i, ==_iff k j)

has-union : (j : ℕ) (is js : List ℕ) → has j (union is js) ≡ has j is || has j js
unfolding union has
has-union j [] js = refl
has-union j (i ∷ is) js = ground (arith, has-union j is js, has-add i j (union is js))

-- What an entry counts for.
watching-insert :
    (j : ℕ) (k : String) (v : List ℕ) (subs : Subs)
    → watching j (insert k v subs) + one_if (has j (conns_of k subs))
      ≡ watching j subs + one_if (has j v)
unfolding watching insert lookup has
watching-insert j k v [] = ground arith
watching-insert j k v ((a, js) ∷ subs) = ground (arith, eq_iff a k, watching-insert j k v subs)

watching-entry :
    (j : ℕ) (a : String) (js : List ℕ) (subs : Subs)
    → watching j (entry a js ++ subs) ≡ watching j subs + one_if (has j js)
unfolding watching has
watching-entry j a [] subs = ground arith
watching-entry j a (i ∷ js) subs = ground arith

watching-unwatch :
    (i j : ℕ) (subs : Subs) → watching j (unwatch i subs) ≡ (if i == j then 0 else watching j subs)
unfolding watching unwatch has
watching-unwatch i j [] = ground arith
watching-unwatch i j ((a, js) ∷ subs) = ground (
  arith,
  watching-entry j a (delete i js) (unwatch i subs),
  has-delete i j js,
  watching-unwatch i j subs,
)

-- A connection that watches nothing is in no list.
watching_none :
    (j : ℕ) (k : String) (subs : Subs) → watching j subs ≡ 0 → has j (conns_of k subs) ≡ false
unfolding watching lookup has
watching_none j k [] h = refl
watching_none j k ((a, js) ∷ subs) h = ground (arith, h, eq_iff a k, watching_none j k subs)

watching-watch :
    (a : String) (i j : ℕ) (subs : Subs)
    → watching j subs ≤ 8
    → (watching j (watch a i subs) ≤ 8) × (i ≢ j → watching j (watch a i subs) ≡ watching j subs)
unfolding watch
watching-watch a i j subs h =
    let sum = watching-insert j a (add i (conns_of a subs)) subs in
    let here = has-add i j (conns_of a subs) in ground (arith, h, sum, here, ==_iff i j)

pub data Event : Type 0 where
  watches : String → ℕ → Event
  unwatches : ℕ → Event

pub step : Event → Subs → Subs
step (watches a i) subs = watch a i subs
step (unwatches i) subs = unwatch i subs

pub run : Subs → List Event → Subs
run subs [] = subs
run subs (e ∷ es) = run (step e subs) es

step_bounds : (j : ℕ) (e : Event) (subs : Subs) → watching j subs ≤ 8 → watching j (step e subs) ≤ 8
unfolding step
step_bounds j (watches a i) subs h = (watching-watch a i j subs h).0
step_bounds j (unwatches i) subs h = ground (arith, h, watching-unwatch i j subs)

run_bounds :
    (j : ℕ) (es : List Event) (subs : Subs) → watching j subs ≤ 8 → watching j (run subs es) ≤ 8
unfolding run
run_bounds j [] subs h = h
run_bounds j (e ∷ es) subs h = run_bounds j es (step e subs) (step_bounds j e subs h)

-- Whatever connections watch and are dropped, in any order, from an empty table: each connection
-- watches at most eight accounts.
pub watching_bounds : (j : ℕ) (es : List Event) → watching j (run [] es) ≤ 8
unfolding watching
watching_bounds j es = run_bounds j es [] (omega arith)

abbrev pub IsOther : ℕ → Event → Type 0
IsOther j (watches a i) = i ≢ j
IsOther j (unwatches i) = Unit

run_none :
    (j : ℕ) (es : List Event) (subs : Subs)
    → All (IsOther j) es
    → watching j subs ≡ 0
    → watching j (run subs es) ≡ 0
unfolding run step
run_none j [] subs all h = h
run_none j (watches a i ∷ es) subs (o, all) h =
    run_none j es (watch a i subs) all ((watching-watch a i j subs (omega (arith, h))).1 o ∙ h)
run_none j (unwatches i ∷ es) subs (o, all) h =
    run_none j es (unwatch i subs) all (ground (arith, h, watching-unwatch i j subs))

-- A connection that was dropped is told of no confirmation, of whatever account or receiver, and whatever
-- other connections watch and are dropped since; it has not asked to watch anything again.
pub dropped_is_left_alone :
    (j : ℕ) (acct link : String) (es : List Event) (subs : Subs)
    → All (IsOther j) es
    → has j (targets acct link (run (unwatch j subs) es)) ≡ false
unfolding targets has
dropped_is_left_alone j acct link es subs all =
    let t = run (unwatch j subs) es in
    let none_left =
      run_none j es (unwatch j subs) all (ground (arith, watching-unwatch j j subs, ==_iff j j)) in
    let first = watching_none j acct t none_left in
    let second = watching_none j link t none_left in
    ground (
      arith,
      has-union j (conns_of acct t) (union (conns_of link t) []),
      has-union j (conns_of link t) [],
      first,
      second,
    )
