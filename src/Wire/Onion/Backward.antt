-- ===== src/Wire/Onion/Backward.antt =====
-- sail/wire/cell.go: a reply that a hop seals, and the hops before it wrap, is read by the client
-- together with the hop that it came from.
use sailnet.Common.{ℕ, suc, ◌+◌, ◌≤◌, ◌<◌, ◌≡◌, ◌≢◌, refl, arith, ◌%◌}
use sailnet.Common.{List, [], ◌∷◌, true}
use sailnet.Common.{drop, Bytes, word}
use sailnet.Common.{put_uint16, get_uint16}
use sailnet.Wire.{cmd_create}
use sailnet.Wire.Replay.Once.{accept_fresh}
use sailnet.Wire.Onion.{Aead, HopKeys, next_bwd, accept_bwd, ok}
use sailnet.Wire.Onion.{seal_seq, open_seq, inner, seal_backward, wrap_backward, read_reply}
use sailnet.Wire.Onion.{reply, relayed, peel_backward_from, peel_backward}
use sailnet.Wire.Onion.Layer.{open_seq-seal_seq}

-- The hop's keys `h` and the client's keys `c` hold the same backward key, and the client has
-- accepted no number above the last one that the hop used, which is not the last uint64.
pub record IsReplying (h c : HopKeys) : Type 0 where
  pub same_key : h.backward ≡ c.backward
  pub behind : c.bwd_win.high ≤ h.bwd_seq
  pub more : h.bwd_seq + 1 < word

-- The hops that a reply passes: the ones before the sender wrap it, the sender comes last.
abbrev pub AllReplying : List HopKeys → List HopKeys → Type 0
AllReplying [] cs = ⊥
AllReplying (h ∷ hs) [] = ⊥
AllReplying (h ∷ []) (c ∷ cs) = IsReplying h c
AllReplying (h ∷ k ∷ hs) (c ∷ cs) = IsReplying h c × AllReplying (k ∷ hs) cs

-- What arrives at the client, of a reply by the last hop of the list.
pub send_back : Aead → List HopKeys → ℕ → ℕ → Bytes → Bytes
send_back a [] cmd stream_id payload = []
send_back a (h ∷ []) cmd stream_id payload = (seal_backward a h cmd stream_id payload).1
send_back a (h ∷ k ∷ hs) cmd stream_id payload =
    (wrap_backward a h (send_back a (k ∷ hs) cmd stream_id payload)).1

-- The number of the hop that sends: the hops in front of it are counted from `i`.
abbrev pub sender : ℕ → List HopKeys → ℕ
sender i [] = i
sender i (h ∷ []) = i
sender i (h ∷ k ∷ hs) = sender (suc i) (k ∷ hs)

module _ (a : Aead) where
  open_next :
      (h c : HopKeys) (text : Bytes)
      → IsReplying h c
      → open_seq a c.backward (seal_seq a (next_bwd h).backward (next_bwd h).bwd_seq text)
        ≡ ok (h.bwd_seq + 1, text)
  open_next h c text s =
      let e : (h.bwd_seq + 1) % word ≡ h.bwd_seq + 1 = ground (arith, s.more) in
      rw (e, s.same_key) (open_seq-seal_seq a c.backward (h.bwd_seq + 1) text s.more)

  fresh_next : (h c : HopKeys) → IsReplying h c → (accept_bwd c (h.bwd_seq + 1)).1 ≡ true
  fresh_next h c s =
      (accept_fresh c.bwd_win (h.bwd_seq + 1) (omega arith) (omega (arith, s.behind))).0

  innermost :
      (cmd stream_id : ℕ) (payload : Bytes)
      → cmd ≢ cmd_create
      → stream_id < 65536
      → read_reply (inner a cmd stream_id payload) ≡ ok (reply cmd stream_id payload)
  unfolding read_reply inner drop put_uint16 get_uint16
  innermost cmd stream_id payload n h = ground arith

  relay_layer : (box : Bytes) → read_reply (1 ∷ box) ≡ ok (relayed box)
  unfolding read_reply
  relay_layer box = refl

  peel_backward_from-send_back :
      (i : ℕ) (hs cs : List HopKeys) (cmd stream_id : ℕ) (payload : Bytes)
      → AllReplying hs cs
      → cmd ≢ cmd_create
      → stream_id < 65536
      → (peel_backward_from a i cs (send_back a hs cmd stream_id payload)).1
        ≡ ok (sender i hs, cmd, stream_id, payload)
  unfolding peel_backward_from send_back seal_backward wrap_backward
  peel_backward_from-send_back i [] cs cmd stream_id payload al n h = absurd al
  peel_backward_from-send_back i (k ∷ []) [] cmd stream_id payload al n h = absurd al
  peel_backward_from-send_back i (k ∷ j ∷ hs) [] cmd stream_id payload al n h = absurd al
  peel_backward_from-send_back i (k ∷ []) (c ∷ cs) cmd stream_id payload al n h = ground (
    arith,
    open_next k c (inner a cmd stream_id payload) al,
    fresh_next k c al,
    innermost cmd stream_id payload n h,
  )
  peel_backward_from-send_back i (k ∷ j ∷ hs) (c ∷ cs) cmd stream_id payload (s, al) n h =
      let box = send_back a (j ∷ hs) cmd stream_id payload in
      ground (
        arith,
        open_next k c (1 ∷ box) s,
        fresh_next k c s,
        relay_layer box,
        peel_backward_from-send_back (suc i) (j ∷ hs) cs cmd stream_id payload al n h,
      )

  -- The client reads the command, the stream and the data that a hop replied with, and learns which
  -- hop it was, through the layers that the hops before it added. The keys are in step, the stream id
  -- is a uint16, and the command is not 1, which is also the marker of a relayed reply.
  pub peel_backward-send_back :
      (hs cs : List HopKeys) (cmd stream_id : ℕ) (payload : Bytes)
      → AllReplying hs cs
      → cmd ≢ cmd_create
      → stream_id < 65536
      → (peel_backward a cs (send_back a hs cmd stream_id payload)).1
        ≡ ok (sender 0 hs, cmd, stream_id, payload)
  unfolding peel_backward
  peel_backward-send_back = peel_backward_from-send_back 0

module _ (a : Aead) (k : HopKeys) where
  pub seal_backward-next_bwd :
      (cmd stream_id : ℕ) (payload : Bytes)
      → (seal_backward a k cmd stream_id payload).0 ≡ next_bwd k
  unfolding seal_backward
  seal_backward-next_bwd cmd stream_id payload = refl

  pub wrap_backward-next_bwd : (box : Bytes) → (wrap_backward a k box).0 ≡ next_bwd k
  unfolding wrap_backward
  wrap_backward-next_bwd box = refl
