-- ===== src/Relay/CellQueue.antt =====
-- sail/relay/window.go: the receive side of a windowed stream. A method that takes the mutex is one
-- step; `pop` on an empty open queue waits, and `blocked` is the state in which it waits.
pub mod Flow
use sailnet.Common.{ℕ, zero, suc, ◌+◌, ◌-◌, ◌/◌, List, [], ◌∷◌, ◌++◌, Bool, true, false, not}
use sailnet.Common.{◌&&◌, ◌||◌, ltb, leb, if◌then◌else◌, length, Bytes, Option, none, some}
use sailnet.Wire.{stream_window, max_stream_window}

pub record CellQueue : Type 0 where
  pub q : List Bytes
  pub closed : Bool
  pub window : ℕ
  pub consumed : ℕ
  pub drained : Bool

unfoldable pub new_cell_queue : CellQueue
new_cell_queue = record {
  q = [];
  closed = false;
  window = stream_window;
  consumed = 0;
  drained = true;
}

pub push : CellQueue → Bytes → CellQueue × Bool
push c d =
    if c.closed || leb c.window (length c.q)
    then (c, false)
    else (record c { q = c.q ++ (d ∷ []) }, true)

-- How much the window grows with a credit.
pub growth : CellQueue → ℕ
growth c =
    if c.drained && ltb c.window max_stream_window
    then (if ltb max_stream_window (c.window + c.window)
        then max_stream_window - c.window
        else c.window)
    else 0

-- What `pop` and `tryPop` do once a cell is there, with the rest of the queue.
pub take_cell : CellQueue → List Bytes → CellQueue × ℕ
unfolding growth
take_cell c rest =
    let c' = record c { q = rest; consumed = c.consumed + 1 } in
    if leb (c'.window / 4) c'.consumed
    then (
      record c' { window = c'.window + growth c'; consumed = 0; drained = false },
      c'.consumed + growth c',
    )
    else (c', 0)

pub data Popped : Type 0 where
  cell : Bytes → ℕ → CellQueue → Popped
  ended : CellQueue → Popped
  blocked : CellQueue → Popped

pub pop : CellQueue → Popped
unfolding take_cell
pop c = elim c.q [
  | d ∷ rest ↦ let (c', credit) = take_cell c rest in cell d credit c'
  | [] ↦ if c.closed then ended c else blocked (record c { drained = true })
]

pub try_pop : CellQueue → CellQueue × Option Bytes × ℕ
unfolding take_cell
try_pop c = elim c.q [
  | d ∷ rest ↦ let (c', credit) = take_cell c rest in (c', some d, credit)
  | [] ↦ (c, none, 0)
]

pub close : CellQueue → CellQueue
close c = record c { closed = true }
