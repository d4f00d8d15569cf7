-- ===== src/Wire/Onion.antt =====
-- sail/wire/cell.go: the onion layers of a circuit, forward and backward, with their sequence
-- numbers. The AEAD of golang.org/x/crypto is the parameter `Aead`.
pub mod Layer
pub mod Forward
pub mod Backward
use sailnet.Common.{ℕ, zero, suc, ◌+◌, ◌%◌, ◌≡◌, List, [], ◌∷◌, ◌++◌, Bool, true, false}
use sailnet.Common.{ltb, ◌==◌, if◌then◌else◌, length, take, drop, Option, none, some, word}
use sailnet.Common.{Bytes, byte_at, put_uint16, put_uint64, get_uint16, get_uint64}
use sailnet.Wire.{tag_size, nonce_size}
use sailnet.Wire.Replay.{ReplayWindow, accept}

-- `aead.Seal(nil, nonce, plaintext, nil)` and `aead.Open`, for a key: what is sealed opens under the
-- same key and nonce, and is longer by the tag.
pub record Aead : Type 0 where
  pub seal : Bytes → Bytes → Bytes → Bytes
  pub unseal : Bytes → Bytes → Bytes → Option Bytes
  pub unseal-seal : (key nonce text : Bytes) → unseal key nonce (seal key nonce text) ≡ some text
  pub length-seal : (key nonce text : Bytes) → length (seal key nonce text) ≡ length text + 16

pub record HopKeys : Type 0 where
  pub forward : Bytes
  pub backward : Bytes
  pub fwd_seq : ℕ
  pub bwd_seq : ℕ
  pub fwd_win : ReplayWindow
  pub bwd_win : ReplayWindow

abbrev pub next_fwd : HopKeys → HopKeys
next_fwd k = record k { fwd_seq = (k.fwd_seq + 1) % word }

abbrev pub next_bwd : HopKeys → HopKeys
next_bwd k = record k { bwd_seq = (k.bwd_seq + 1) % word }

abbrev pub accept_fwd : HopKeys → ℕ → HopKeys × Bool
accept_fwd k seq = let (w, ok) = accept k.fwd_win seq in (record k { fwd_win = w }, ok)

abbrev pub accept_bwd : HopKeys → ℕ → HopKeys × Bool
accept_bwd k seq = let (w, ok) = accept k.bwd_win seq in (record k { bwd_win = w }, ok)

pub data Error : Type 0 where
  short_box aead_failed replay empty_layer short_terminal short_reply no_terminal : Error

pub data Result {ℓ} (A : Type ℓ) : Type ℓ where
  ok : A → Result A
  err : Error → Result A

-- 8 bytes of the sequence number, and 4 zero bytes.
pub nonce_of : ℕ → Bytes
nonce_of seq = put_uint64 seq ++ (0 ∷ 0 ∷ 0 ∷ 0 ∷ [])

pub data Peeled : Type 0 where
  terminal : ℕ → ℕ → Bytes → Peeled
  onward : Bytes → Peeled

-- The layer's content, once it is opened and accepted.
unfoldable pub read_layer : Bytes → Result Peeled
read_layer [] = err empty_layer
read_layer (m ∷ r) =
    if m == 0
    then (if ltb (length r) 3
        then err short_terminal
        else ok (terminal (byte_at 0 r) (get_uint16 (drop 1 r)) (drop 3 r)))
    else ok (onward r)

pub data Reply : Type 0 where
  reply : ℕ → ℕ → Bytes → Reply
  relayed : Bytes → Reply

-- One layer of a reply: the marker 1 says that the reply comes from further on.
pub read_reply : Bytes → Result Reply
read_reply [] = err short_reply
read_reply (m ∷ r) =
    if m == 1
    then ok (relayed r)
    else (if ltb (length r) 2 then err short_reply else ok (reply m (get_uint16 r) (drop 2 r)))

module _ (a : Aead) where
  pub seal_seq : Bytes → ℕ → Bytes → Bytes
  seal_seq key seq text = nonce_of seq ++ a.seal key (nonce_of seq) text

  unfoldable pub open_seq : Bytes → Bytes → Result (ℕ × Bytes)
  open_seq key box =
      if ltb (length box) (nonce_size + tag_size)
      then err short_box
      else elim (a.unseal key (take nonce_size box) (drop nonce_size box)) [
        | none ↦ err aead_failed
        | some text ↦ ok (get_uint64 box, text)
      ]

  -- The innermost layer: `[cmd:1][streamID:2][data]`.
  pub inner : ℕ → ℕ → Bytes → Bytes
  inner cmd stream_id payload = cmd ∷ (put_uint16 stream_id ++ payload)

  -- The loop of `OnionSeal` runs from the last hop to the first: the layers of the hops behind the
  -- first are made before its own, and it puts the relay marker 1 in front of them.
  pub seal_layers : List HopKeys → Bytes → List HopKeys × Bytes
  seal_layers [] cur = ([], cur)
  seal_layers (k ∷ []) cur = let k' = next_fwd k in (k' ∷ [], seal_seq k'.forward k'.fwd_seq cur)
  seal_layers (k ∷ j ∷ ks) cur =
      let (rest, box) = seal_layers (j ∷ ks) cur in
      let k' = next_fwd k in (k' ∷ rest, seal_seq k'.forward k'.fwd_seq (1 ∷ box))

  pub onion_seal : List HopKeys → ℕ → ℕ → Bytes → List HopKeys × Bytes
  unfolding inner
  onion_seal hops cmd stream_id payload = seal_layers hops (0 ∷ inner cmd stream_id payload)

  unfoldable pub peel_forward : HopKeys → Bytes → HopKeys × Result Peeled
  peel_forward k box = elim (open_seq k.forward box) [
    | err e ↦ (k, err e)
    | ok (seq, text) ↦
        let (k', fresh) = accept_fwd k seq in
        if fresh then (k', read_layer text) else (k', err replay)
  ]

  pub seal_backward : HopKeys → ℕ → ℕ → Bytes → HopKeys × Bytes
  unfolding inner
  seal_backward k cmd stream_id payload =
      let k' = next_bwd k in (k', seal_seq k'.backward k'.bwd_seq (inner cmd stream_id payload))

  pub wrap_backward : HopKeys → Bytes → HopKeys × Bytes
  wrap_backward k box = let k' = next_bwd k in (k', seal_seq k'.backward k'.bwd_seq (1 ∷ box))

  -- The loop of `PeelBackward` over the hops, at hop `i`. The answer is the hop, the command, the
  -- stream and the data, beside the keys with their windows moved.
  pub peel_backward_from : ℕ → List HopKeys → Bytes → List HopKeys × Result (ℕ × ℕ × ℕ × Bytes)
  peel_backward_from i [] cur = ([], err no_terminal)
  peel_backward_from i (k ∷ ks) cur = elim (open_seq k.backward cur) [
    | err e ↦ (k ∷ ks, err e)
    | ok (seq, text) ↦
        let (k', fresh) = accept_bwd k seq in
        elim fresh [
          | false ↦ (k' ∷ ks, err replay)
          | true ↦ elim (read_reply text) [
            | err e ↦ (k' ∷ ks, err e)
            | ok (relayed box) ↦ let (ks', r) = peel_backward_from (suc i) ks box in (k' ∷ ks', r)
            | ok (reply cmd stream_id payload) ↦ (k' ∷ ks, ok (i, cmd, stream_id, payload))
          ]
        ]
  ]

  pub peel_backward : List HopKeys → Bytes → List HopKeys × Result (ℕ × ℕ × ℕ × Bytes)
  unfolding peel_backward_from
  peel_backward hops box = peel_backward_from 0 hops box
