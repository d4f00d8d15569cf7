-- ===== src/Wire/Onion/Forward.antt =====
-- sail/wire/cell.go: a cell that the client seals for a route is opened by the last hop.
use sailnet.Common.{ℕ, ◌+◌, ◌≤◌, ◌<◌, ◌≡◌, refl, arith, ◌*◌, ◌%◌}
use sailnet.Common.{List, [], ◌∷◌}
use sailnet.Common.{length, drop, Bytes, word}
use sailnet.Common.{put_uint16, get_uint16}
use sailnet.Wire.{payload_size, max_data}
use sailnet.Wire.Replay.Once.{accept_fresh, IsSpent, IsSpent-refused}
use sailnet.Wire.Onion.{Aead, HopKeys, next_fwd, accept_fwd, no_terminal, replay, Result, ok, err}
use sailnet.Wire.Onion.{
  seal_seq, open_seq, inner, seal_layers, onion_seal, peel_forward, read_layer,
}
use sailnet.Wire.Onion.{Peeled, terminal, onward}
use sailnet.Wire.Onion.Layer.{length-seal_seq, open_seq-seal_seq}

-- The client's keys `c` and the hop's keys `h` hold the same forward key, and the hop has accepted
-- no number above the last one that the client used, which is not the last uint64.
pub record InStep (c h : HopKeys) : Type 0 where
  pub same_key : c.forward ≡ h.forward
  pub behind : h.fwd_win.high ≤ c.fwd_seq
  pub more : c.fwd_seq + 1 < word

abbrev pub AllInStep : List HopKeys → List HopKeys → Type 0
AllInStep [] [] = Unit
AllInStep (c ∷ cs) (h ∷ hs) = InStep c h × AllInStep cs hs
AllInStep _ _ = ⊥

-- The relays of a circuit in turn: each peels its layer and hands an onward box to the next.
pub deliver : Aead → List HopKeys → Bytes → List HopKeys × Result Peeled
deliver a [] box = ([], err no_terminal)
deliver a (k ∷ ks) box =
    let (k', r) = peel_forward a k box in
    elim r [
      | ok (onward b) ↦ let (ks', r') = deliver a ks b in (k' ∷ ks', r')
      | ok (terminal c s d) ↦ (k' ∷ ks, ok (terminal c s d))
      | err e ↦ (k' ∷ ks, err e)
    ]

module _ (a : Aead) where
  peel_forward-seal_seq :
      (h : HopKeys) (seq : ℕ) (text : Bytes)
      → h.fwd_win.high < seq
      → seq < word
      → peel_forward a h (seal_seq a h.forward seq text) ≡ ((accept_fwd h seq).0, read_layer text)
  unfolding peel_forward
  peel_forward-seal_seq h seq text new fits =
      ground (arith, open_seq-seal_seq a h.forward seq text, accept_fresh h.fwd_win seq)

  -- The next layer of the client, at its hop.
  pub peel_next :
      (c h : HopKeys) (text : Bytes)
      → InStep c h
      → peel_forward a h (seal_seq a (next_fwd c).forward (next_fwd c).fwd_seq text)
        ≡ ((accept_fwd h (c.fwd_seq + 1)).0, read_layer text)
  peel_next c h text s =
      let e : (c.fwd_seq + 1) % word ≡ c.fwd_seq + 1 = ground (arith, s.more) in
      rw (e, s.same_key)
        (peel_forward-seal_seq h (c.fwd_seq + 1) text (omega (arith, s.behind)) s.more)

  innermost :
      (cmd stream_id : ℕ) (payload : Bytes)
      → stream_id < 65536
      → read_layer (0 ∷ inner a cmd stream_id payload) ≡ ok (terminal cmd stream_id payload)
  unfolding read_layer inner drop put_uint16 get_uint16
  innermost cmd stream_id payload h = ground arith

  relay_layer : (box : Bytes) → read_layer (1 ∷ box) ≡ ok (onward box)
  unfolding read_layer
  relay_layer box = refl

  deliver-seal_layers :
      (c : HopKeys) (cs hs : List HopKeys) (cmd stream_id : ℕ) (payload : Bytes)
      → AllInStep (c ∷ cs) hs
      → stream_id < 65536
      → (deliver a hs (seal_layers a (c ∷ cs) (0 ∷ inner a cmd stream_id payload)).1).1
        ≡ ok (terminal cmd stream_id payload)
  unfolding deliver seal_layers
  deliver-seal_layers c [] [] cmd stream_id payload al h = absurd al
  deliver-seal_layers c [] (k ∷ []) cmd stream_id payload (s, _) h = ground (
    arith,
    peel_next c k (0 ∷ inner a cmd stream_id payload) s,
    innermost cmd stream_id payload h,
  )
  deliver-seal_layers c [] (k ∷ l ∷ hs) cmd stream_id payload al h = absurd al.1
  deliver-seal_layers c (d ∷ cs) [] cmd stream_id payload al h = absurd al
  deliver-seal_layers c (d ∷ cs) (k ∷ hs) cmd stream_id payload (s, al) h =
      let box = (seal_layers a (d ∷ cs) (0 ∷ inner a cmd stream_id payload)).1 in
      ground (
        arith,
        peel_next c k (1 ∷ box) s,
        relay_layer box,
        deliver-seal_layers d cs hs cmd stream_id payload al h,
      )

  -- A cell that the client seals for a route is opened by the relays one after the other, and the
  -- last of them reads the command, the stream and the data that the client sent. There is at least
  -- one hop, each hop's keys are in step with the client's, and the stream id is a uint16.
  pub deliver-onion_seal :
      (c : HopKeys) (cs hs : List HopKeys) (cmd stream_id : ℕ) (payload : Bytes)
      → AllInStep (c ∷ cs) hs
      → stream_id < 65536
      → (deliver a hs (onion_seal a (c ∷ cs) cmd stream_id payload).1).1
        ≡ ok (terminal cmd stream_id payload)
  unfolding onion_seal
  deliver-onion_seal = deliver-seal_layers

  length-seal_layers :
      (c : HopKeys) (cs : List HopKeys) (text : Bytes)
      → length (seal_layers a (c ∷ cs) text).1 ≡ length text + 28 + 29 * length cs
  unfolding seal_layers
  length-seal_layers c [] text =
      omega (arith, length-seal_seq a c.forward ((c.fwd_seq + 1) % word) text)
  length-seal_layers c (d ∷ cs) text =
      let box = (seal_layers a (d ∷ cs) text).1 in
      omega (
        arith,
        length-seal_seq a c.forward ((c.fwd_seq + 1) % word) (1 ∷ box),
        length-seal_layers d cs text,
      )

  -- `MaxData` bytes fit: under at most three hops, the sealed cell is no longer than a payload.
  pub length-onion_seal :
      (c : HopKeys) (cs : List HopKeys) (cmd stream_id : ℕ) (payload : Bytes)
      → length cs ≤ 2
      → length payload ≤ max_data
      → length (onion_seal a (c ∷ cs) cmd stream_id payload).1 ≤ payload_size
  unfolding onion_seal put_uint16
  length-onion_seal c cs cmd stream_id payload h fits =
      omega (arith, length-seal_layers c cs (0 ∷ inner a cmd stream_id payload))

  -- A box that a hop has opened once is refused as a replay ever after, also once the hop has opened
  -- other boxes in between.
  pub peel_forward-replay :
      (k : HopKeys) (box : Bytes) (seq : ℕ) (text : Bytes)
      → open_seq a k.forward box ≡ ok (seq, text)
      → IsSpent k.fwd_win seq
      → (peel_forward a k box).1 ≡ err replay
  unfolding peel_forward
  peel_forward-replay k box seq text e h = ground (arith, IsSpent-refused k.fwd_win seq h)
