-- ===== src/Wire/Ws/Progress.antt =====
-- sail/wire/ws.go: the loop of `Read` ends.
use sailnet.Common.{ℕ, zero, suc, ◌+◌, ◌%◌, ◌≤◌, ◌≡◌, refl, arith, ◌≢◌}
use sailnet.Common.{[], ◌∷◌, ◌++◌, Bool}
use sailnet.Common.{leb, length, drop, length-drop}
use sailnet.Common.{Bytes, get_uint16, get_uint64}
use sailnet.Wire.Ws.{Frame, payload, control}
use sailnet.Wire.Ws.{read_body, read_frame, WsConn, stuck, read_loop, read, closed, eof, too_large}

-- What a frame leaves of the stream is shorter by its header at least.
abbrev Shrinks : ℕ → Frame → Type 0
Shrinks n (payload p more) = length more + 2 ≤ n
Shrinks n (control out more) = length more + 2 ≤ n
Shrinks n _ = Unit

read_body-Shrinks :
    (client : Bool) (rand : Bytes) (op n : ℕ) (masked : Bool) (r : Bytes) (k : ℕ)
    → length r + 2 ≤ k
    → Shrinks k (read_body client rand op masked n r)
unfolding read_body
read_body-Shrinks client rand op n masked r k h =
    ground (arith, length-drop (4 + n) r, length-drop (0 + n) r)

read_frame-Shrinks :
    (client : Bool) (rand r : Bytes) → Shrinks (length r) (read_frame client rand r)
unfolding read_frame
read_frame-Shrinks client rand [] = tt
read_frame-Shrinks client rand (x ∷ []) = tt
read_frame-Shrinks client rand (x ∷ y ∷ r) =
    let body = read_body-Shrinks client rand (x % 16) in
    let k = suc (suc (length r)) in
    ground (
      arith,
      body (get_uint16 r) (leb 128 (y % 256)) (drop 2 r) k,
      body (get_uint64 r) (leb 128 (y % 256)) (drop 8 r) k,
      body (y % 128) (leb 128 (y % 256)) r k,
      length-drop 2 r,
      length-drop 8 r,
    )

abbrev conn : Bool → Bytes → Bytes → Bytes → WsConn
conn c r i w = record { client = c; rest = r; incoming = i; written = w }

-- The rounds that `read_loop` may need.
abbrev needed : Bytes → Bytes → ℕ
needed [] incoming = length incoming + 2
needed (x ∷ r) incoming = 1

needed-le : (r i : Bytes) → needed r i ≤ length i + 2
needed-le [] i = omega arith
needed-le (x ∷ r) i = omega arith

read_loop-ne-stuck :
    (fuel want : ℕ) (rand : Bytes) (c : Bool) (r i w : Bytes)
    → needed r i ≤ fuel
    → read_loop fuel want rand (conn c r i w) ≢ stuck
unfolding read_loop
read_loop-ne-stuck zero want rand c [] i w h = absurd (omega arith)
read_loop-ne-stuck zero want rand c (x ∷ r) i w h = absurd (omega arith)
read_loop-ne-stuck (suc fuel) want rand c (x ∷ r) i w h = λ e. cc
read_loop-ne-stuck (suc fuel) want rand c [] i w h =
    go (read_frame c rand i) refl (read_frame-Shrinks c rand i)
      (read_loop-ne-stuck fuel want rand c)
  where
    go :
        (f : Frame)
        → read_frame c rand i ≡ f
        → Shrinks (length i) f
        → ((r' i' w' : Bytes)
            → needed r' i' ≤ fuel
            → read_loop fuel want rand (conn c r' i' w') ≢ stuck)
        → read_loop (suc fuel) want rand (conn c [] i w) ≢ stuck
    go (payload p more) e s ih = rw (e, read_loop) (ih p more w (omega (arith, needed-le p more)))
    go (control out more) e s ih = rw (e, read_loop) (ih [] more (w ++ out) (omega arith))
    go closed e s ih = rw (e, read_loop) (λ q. cc)
    go eof e s ih = rw (e, read_loop) (λ q. cc)
    go too_large e s ih = rw (e, read_loop) (λ q. cc)

-- `Read` always answers, with bytes or an error: its loop over control frames and empty frames ends
-- on every stream.
pub read-ne-stuck : (want : ℕ) (rand : Bytes) (w : WsConn) → read want rand w ≢ stuck
unfolding read
read-ne-stuck want rand w =
    read_loop-ne-stuck (length w.incoming + 2) want rand w.client w.rest w.incoming w.written
      (needed-le w.rest w.incoming)
