-- ===== src/Relay/Server/Payment/Floor.antt =====
-- sail/relay/server.go: the floor under a small payment, once a day for each wallet.
use Prim.Native.String.{String}
use text.Mathlib.TextEquality.{eq_iff}
use sailnet.Common.{ℕ, ◌≡◌, ◌≢◌, arith, List, [], ◌∷◌, some}
use sailnet.Common.{==_iff, lookup, lookup-insert}
use sailnet.Relay.Server.Payment.{of_day, floor_credit}

-- The payments of one day that ask for the floor: the wallet, and what the amount buys.
pub run : ℕ → ℕ → List (String × ℕ) → List (String × ℕ) → List (String × ℕ)
run floor day [] welcome = welcome
run floor day ((owner, n) ∷ ps) welcome =
    run floor day ps (floor_credit floor day owner n welcome).0

of_day-day :
    (day : ℕ) (owner : String) (w : List (String × ℕ))
    → lookup owner w ≡ some day
    → lookup owner (of_day day w) ≡ some day
unfolding of_day lookup
of_day-day day owner [] h = h
of_day-day day owner ((k, d) ∷ w) h =
    ground (arith, h, eq_iff k owner, ==_iff d day, of_day-day day owner w)

floor_credit-day :
    (floor day n : ℕ) (owner other : String) (w : List (String × ℕ))
    → lookup owner w ≡ some day
    → lookup owner (floor_credit floor day other n w).0 ≡ some day
unfolding floor_credit
floor_credit-day floor day n owner other w h = ground (
  arith,
  h,
  eq_iff other owner,
  of_day-day day owner w h,
  lookup-insert other owner day w,
  lookup-insert other owner day (of_day day w),
)

run-day :
    (floor day : ℕ) (owner : String) (ps : List (String × ℕ)) (w : List (String × ℕ))
    → lookup owner w ≡ some day
    → lookup owner (run floor day ps w) ≡ some day
unfolding run
run-day floor day owner [] w h = h
run-day floor day owner ((other, n) ∷ ps) w h =
    run-day floor day owner ps (floor_credit floor day other n w).0
      (floor_credit-day floor day n owner other w h)

floor_credit_marks :
    (floor day n : ℕ) (owner : String) (w : List (String × ℕ))
    → (floor_credit floor day owner n w).1 ≢ n
    → lookup owner (floor_credit floor day owner n w).0 ≡ some day
unfolding floor_credit
floor_credit_marks floor day n owner w h = ground (
  arith,
  h,
  eq_iff owner owner,
  lookup-insert owner owner day w,
  lookup-insert owner owner day (of_day day w),
)

floor_credit_marked :
    (floor day n : ℕ) (owner : String) (w : List (String × ℕ))
    → lookup owner w ≡ some day
    → (floor_credit floor day owner n w).1 ≡ n
unfolding floor_credit
floor_credit_marked floor day n owner w h = ground (arith, h, ==_iff day day)

-- A wallet whose payment was raised to the floor is credited at the price alone for the rest of that
-- day: whatever other wallets and it itself pay in between, also when the table of the day is cut down
-- to size, its next payment counts for what it buys.
pub floor_once_a_day :
    (floor day n m : ℕ) (owner : String) (ps : List (String × ℕ)) (w : List (String × ℕ))
    → (floor_credit floor day owner n w).1 ≢ n
    → (floor_credit floor day owner m (run floor day ps (floor_credit floor day owner n w).0)).1 ≡ m
floor_once_a_day floor day n m owner ps w h =
    floor_credit_marked floor day m owner (run floor day ps (floor_credit floor day owner n w).0) (
      run-day floor day owner ps (floor_credit floor day owner n w).0
        (floor_credit_marks floor day n owner w h))
