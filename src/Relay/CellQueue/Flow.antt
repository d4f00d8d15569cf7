-- ===== src/Relay/CellQueue/Flow.antt =====
-- sail/relay/window.go with the sender that it grants credit to: a sender that keeps to its credit
-- never overruns the window.
use sailnet.Common.{ℕ, ◌+◌, ◌-◌, ◌*◌, ◌≤◌, ◌<◌, ◌≡◌, refl, ap, arith}
use sailnet.Common.{List, [], ◌∷◌, ◌++◌, true, false}
use sailnet.Common.{length, length-append, Bytes, none, some}
use sailnet.Wire.{stream_window, max_stream_window}
use sailnet.Relay.CellQueue.{CellQueue, new_cell_queue, push, take_cell, cell}
use sailnet.Relay.CellQueue.{blocked, pop, try_pop, close}

-- What holds of a queue at every moment.
pub record IsValid (c : CellQueue) : Type 0 where
  pub floor : stream_window ≤ c.window
  pub ceiling : c.window ≤ max_stream_window
  pub unreported : 4 * c.consumed < c.window
  pub bounded : length c.q + c.consumed ≤ c.window

pub new_cell_queue-IsValid : IsValid new_cell_queue
unfolding new_cell_queue
new_cell_queue-IsValid = ground arith

pub push-IsValid :
    (c : CellQueue) (d : Bytes)
    → IsValid c
    → length c.q + c.consumed < c.window
    → IsValid (push c d).0
unfolding push
push-IsValid c d v h = ground (arith, length-append c.q (d ∷ []))

-- One link: the receiver's queue, the credit that the sender may use now, and the credit on its way.
pub record Link : Type 0 where
  pub queue : CellQueue
  pub credit : ℕ
  pub in_flight : ℕ

-- What the sender may still send, what is on its way back to it, what lies in the queue and what was
-- taken without a credit.
abbrev pub accounted : Link → ℕ
accounted l = l.credit + l.in_flight + length l.queue.q + l.queue.consumed

-- The sender's view and the receiver's agree. A closed queue drops what still arrives.
pub record IsBalanced (l : Link) : Type 0 where
  pub valid : IsValid l.queue
  pub sum : accounted l ≤ l.queue.window
  pub exact : l.queue.closed ≡ false → accounted l ≡ l.queue.window

unfoldable pub new_link : Link
new_link = record { queue = new_cell_queue; credit = stream_window; in_flight = 0 }

-- The sender sends a cell while it has credit; the receiver takes a cell, waits or closes; a credit
-- arrives. The order is that of the network and the scheduler.
pub data Step : Link → Link → Type 0 where
  send :
      (l : Link) (d : Bytes)
      → 0 < l.credit
      → Step l (record l { queue = (push l.queue d).0; credit = l.credit - 1 })
  receive :
      (l : Link) (d : Bytes) (n : ℕ) (c : CellQueue)
      → pop l.queue ≡ cell d n c
      → Step l (record l { queue = c; in_flight = l.in_flight + n })
  wait : (l : Link) (c : CellQueue) → pop l.queue ≡ blocked c → Step l (record l { queue = c })
  shut : (l : Link) → Step l (record l { queue = close l.queue })
  credited :
      (l : Link) (n : ℕ)
      → n ≤ l.in_flight
      → Step l (record l { credit = l.credit + n; in_flight = l.in_flight - n })

pub data Reach (l : Link) : Link → Type 0 where
  here : Reach l l
  next : {m n : Link} → Reach l m → Step m n → Reach l n

pub new_link-IsBalanced : IsBalanced new_link
unfolding new_link new_cell_queue
new_link-IsBalanced = ground arith

take_cell-IsValid :
    (c : CellQueue) (d : Bytes) (rest : List Bytes)
    → IsValid c
    → c.q ≡ d ∷ rest
    → IsValid (take_cell c rest).0
unfolding take_cell
take_cell-IsValid c d rest v e = let n = ap length e in ground (arith, n)

take_cell-sum :
    (c : CellQueue) (d : Bytes) (rest : List Bytes)
    → c.q ≡ d ∷ rest
    → IsValid c
    → (take_cell c rest).1
        + length (take_cell c rest).0.q
        + (take_cell c rest).0.consumed
        + c.window
      ≡ (take_cell c rest).0.window + length c.q + c.consumed
unfolding take_cell
take_cell-sum c d rest e v = let n = ap length e in ground (arith, n)

take_cell-closed : (c : CellQueue) (rest : List Bytes) → (take_cell c rest).0.closed ≡ c.closed
unfolding take_cell
take_cell-closed c rest = ground arith

pop-eq-cell :
    (c c' : CellQueue) (d : Bytes) (n : ℕ)
    → pop c ≡ cell d n c'
    → (rest : List Bytes) × (c.q ≡ d ∷ rest) × (take_cell c rest ≡ (c', n))
unfolding pop
pop-eq-cell c c' d n e = go c.q refl
  where
    go :
        (l : List Bytes)
        → c.q ≡ l
        → (rest : List Bytes) × (c.q ≡ d ∷ rest) × (take_cell c rest ≡ (c', n))
    go [] p = absurd (ground arith)
    go (x ∷ r) p = (r, ground arith, ground arith)

pop-eq-blocked : (c c' : CellQueue) → pop c ≡ blocked c' → c' ≡ record c { drained = true }
unfolding pop
pop-eq-blocked c c' e = ground arith

send-IsBalanced :
    (l : Link) (d : Bytes)
    → 0 < l.credit
    → IsBalanced l
    → IsBalanced (record l { queue = (push l.queue d).0; credit = l.credit - 1 })
unfolding push
send-IsBalanced l d h b = ground (arith, length-append l.queue.q (d ∷ []), b.exact)

receive-IsBalanced :
    (l : Link) (d : Bytes) (n : ℕ) (c : CellQueue)
    → pop l.queue ≡ cell d n c
    → IsBalanced l
    → IsBalanced (record l { queue = c; in_flight = l.in_flight + n })
receive-IsBalanced l d n c e b =
    let (rest, p, t) = pop-eq-cell l.queue c d n e in
    record {
      valid = ground (arith, take_cell-IsValid l.queue d rest b.valid p, t);
      sum = ground (arith, take_cell-sum l.queue d rest p b.valid, t, b.sum);
      exact = λ o. ground (
        arith,
        take_cell-sum l.queue d rest p b.valid,
        t,
        b.exact (ground (arith, take_cell-closed l.queue rest)),
      );
    }

wait-IsBalanced :
    (l : Link) (c : CellQueue)
    → pop l.queue ≡ blocked c
    → IsBalanced l
    → IsBalanced (record l { queue = c })
wait-IsBalanced l c e b = rw (pop-eq-blocked l.queue c e) (ground arith)

shut-IsBalanced : (l : Link) → IsBalanced l → IsBalanced (record l { queue = close l.queue })
unfolding close
shut-IsBalanced l b = ground arith

credited-IsBalanced :
    (l : Link) (n : ℕ)
    → n ≤ l.in_flight
    → IsBalanced l
    → IsBalanced (record l { credit = l.credit + n; in_flight = l.in_flight - n })
credited-IsBalanced l n h b = record {
  valid = b.valid;
  sum = omega arith;
  exact = λ o. omega (arith, b.exact o);
}

pub Step-IsBalanced : {l m : Link} → Step l m → IsBalanced l → IsBalanced m
Step-IsBalanced (send l d h) b = send-IsBalanced l d h b
Step-IsBalanced (receive l d n c e) b = receive-IsBalanced l d n c e b
Step-IsBalanced (wait l c e) b = wait-IsBalanced l c e b
Step-IsBalanced (shut l) b = shut-IsBalanced l b
Step-IsBalanced (credited l n h) b = credited-IsBalanced l n h b

-- In every state that a stream reaches, by any order of sends, receives, waits, credits and a close,
-- no credit is lost while the queue is open, and the window stays between 2048 and 16384 cells.
pub Reach-IsBalanced : {l : Link} → Reach new_link l → IsBalanced l
Reach-IsBalanced here = new_link-IsBalanced
Reach-IsBalanced (next r s) = Step-IsBalanced s (Reach-IsBalanced r)

-- A sender that has credit is never refused: in every reachable state with credit left, an open
-- queue takes the next cell and has it at its end.
pub push_accepts :
    {l : Link} (d : Bytes)
    → Reach new_link l
    → 0 < l.credit
    → l.queue.closed ≡ false
    → ((push l.queue d).1 ≡ true) × ((push l.queue d).0.q ≡ l.queue.q ++ (d ∷ []))
unfolding push
push_accepts d r h o = ground (arith, (Reach-IsBalanced r).sum)

-- A sender that is out of credit is not stuck for good: in every reachable state with an open queue,
-- no credit and none on its way, there is a cell for the reader to take.
pub credit_returns :
    {l : Link}
    → Reach new_link l
    → l.queue.closed ≡ false
    → l.credit ≡ 0
    → l.in_flight ≡ 0
    → 3 * l.queue.window < 4 * length l.queue.q
credit_returns r o c i =
    omega (arith, (Reach-IsBalanced r).exact o, (Reach-IsBalanced r).valid.unreported)

-- `tryPop` is `pop` without the wait: it takes the same cell with the same credit and leaves the same
-- queue, and on an empty queue it gives nothing and changes nothing.
pub try_pop-pop :
    (c : CellQueue)
    → ((d : Bytes) (n : ℕ) (c' : CellQueue) → pop c ≡ cell d n c' → try_pop c ≡ (c', some d, n))
      × (c.q ≡ [] → try_pop c ≡ (c, none, 0))
unfolding pop try_pop
try_pop-pop c = (λ d n c' e. ground arith, λ e. ground arith)
