-- ===== src/Nano/State.antt =====
-- sail/nano/state.go: the cached state of an account. A hash or key is given by its bytes, not by its
-- hex text; `none` for the frontier is the empty text of a state that holds nothing. Heights are uint64.
pub mod Heights
use sailnet.Common.{ℕ, ◌+◌, ◌%◌, Bytes, Bool, true, false, ◌&&◌, Option, none, some}
use sailnet.Common.{ltb, leb, ◌==◌, if◌then◌else◌, bytes_eq, word}

pub record ChainState : Type 0 where
  pub frontier : Option Bytes
  pub balance : ℕ
  pub rep : Bytes
  pub opened : Bool
  pub height : ℕ
  pub at : ℕ

-- The age that `LoadChainState` gives a file: a file without a time has that of its last write, and
-- one not after the epoch (0 here) counts as second 1.
pub file_age : ℕ → ℕ → ℕ
file_age at mtime = if at == 0 then (if mtime == 0 then 1 else mtime) else at

-- What `Get` reads.
pub record View : Type 0 where
  pub previous : Bytes
  pub balance : ℕ
  pub representative : Bytes
  pub opened : Bool

-- A `nil` pointer is `none`.
unfoldable pub get : Option ChainState → Option View
get none = none
get (some s) = elim s.frontier [
  | none ↦ none
  | some f ↦
      some (record { previous = f; balance = s.balance; representative = s.rep; opened = s.opened })
]

pub same_frontier : Option Bytes → Bytes → Bool
same_frontier none f = false
same_frontier (some g) f = bytes_eq g f

unfoldable pub record_state : ChainState → View → ℕ → Bool → ℕ → ChainState
unfolding same_frontier
record_state s v height grow now =
    let h =
      if grow
      then (if ltb 0 s.height then (s.height + 1) % word else s.height)
      else (if same_frontier s.frontier v.previous && ltb height s.height
          then s.height
          else height) in
    record {
      frontier = some v.previous;
      balance = v.balance;
      rep = v.representative;
      opened = v.opened;
      height = h;
      at = now;
    }

unfoldable pub set : Option ChainState → View → ℕ → Option ChainState
unfolding record_state
set none v now = none
set (some s) v now = some (record_state s v 0 true now)

unfoldable pub set_from_ledger : Option ChainState → View → ℕ → ℕ → Option ChainState
unfolding record_state
set_from_ledger none v height now = none
set_from_ledger (some s) v height now = some (record_state s v height false now)

pub set_height : Option ChainState → ℕ → Option ChainState
set_height none h = none
set_height (some s) h =
    some (if h == 0 then s else (if leb h s.height then s else record s { height = h }))

pub height_of : Option ChainState → ℕ
height_of none = 0
height_of (some s) = s.height
