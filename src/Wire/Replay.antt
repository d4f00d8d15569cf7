-- ===== src/Wire/Replay.antt =====
-- sail/wire/cell.go: the 64-cell anti-replay window.
pub mod Once
use sailnet.Common.{ℕ, zero, suc, ◌+◌, ◌-◌, ◌*◌, ◌/◌, ◌%◌, Bool, true, false, ◌||◌}
use sailnet.Common.{ltb, leb, ◌==◌, if◌then◌else◌, word}

pub record ReplayWindow : Type 0 where
  pub high : ℕ  -- uint64
  pub bits : ℕ  -- uint64

-- `x << k` on a uint64: k doublings, each dropping the top bit.
pub shl : ℕ → ℕ → ℕ
shl x zero = x
shl x (suc k) = shl (x * 2 % word) k

-- `x & (1 << k) != 0`, and `x | 1 << k`.
pub has_bit : ℕ → ℕ → Bool
has_bit x zero = x % 2 == 1
has_bit x (suc k) = has_bit (x / 2) k

pub set_bit : ℕ → ℕ → ℕ
set_bit x zero = x / 2 * 2 + 1
set_bit x (suc k) = set_bit (x / 2) k * 2 + x % 2

unfoldable pub accept : ReplayWindow → ℕ → ReplayWindow × Bool
accept w seq =
    if seq == 0
    then (w, false)
    else (if ltb w.high seq
        then (
          record {
            high = seq;
            bits = set_bit (if leb 64 (seq - w.high) then 0 else shl w.bits (seq - w.high)) 0;
          },
          true,
        )
        else (if leb 64 (w.high - seq) || has_bit w.bits (w.high - seq)
            then (w, false)
            else (record w { bits = set_bit w.bits (w.high - seq) }, true)))
