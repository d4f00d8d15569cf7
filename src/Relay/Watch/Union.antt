-- ===== src/Relay/Watch/Union.antt =====
-- sail/relay/watch.go: the subscription of the upstream connection.
use Prim.Native.String.{String}
use text.Mathlib.TextEquality.{eq_iff}
use sailnet.Common.{◌≡◌, refl, arith, List, [], ◌∷◌, not, ◌&&◌, ◌||◌}
use sailnet.Relay.Watch.{is_known, missing, update}

is_known-missing :
    (a : String) (known cur : List String)
    → is_known a (missing known cur) ≡ (is_known a cur && not (is_known a known))
unfolding is_known missing
is_known-missing a known [] = refl
is_known-missing a known (b ∷ cur) = ground (arith, is_known-missing a known cur, eq_iff b a)

-- After a round the accounts subscribed to are those that are watched: an account is among those that
-- were known and are not deleted, or among those added, exactly when somebody watches it.
pub is_known-update :
    (a : String) (known cur : List String)
    → let (added, deleted) = update known cur in
      ((is_known a known && not (is_known a deleted)) || is_known a added) ≡ is_known a cur
unfolding update
is_known-update a known cur =
    ground (arith, is_known-missing a known cur, is_known-missing a cur known)
