-- ===== src/Wire/Onion/Layer.antt =====
-- sail/wire/cell.go: one sealed layer opens again.
use sailnet.Common.{ℕ, ◌+◌, ◌<◌, ◌≡◌, refl, arith}
use sailnet.Common.{[], ◌∷◌, ◌++◌, append_assoc, false, ltb}
use sailnet.Common.{length, length-append, take-append, drop-append}
use sailnet.Common.{Bytes, put_uint64, get_uint64, get-put_uint64, word}
use sailnet.Wire.{tag_size, nonce_size}
use sailnet.Wire.Onion.{Aead, ok, nonce_of, seal_seq, open_seq}

length-nonce_of : (seq : ℕ) → length (nonce_of seq) ≡ 12
unfolding nonce_of put_uint64
length-nonce_of seq = refl

number_back : (seq : ℕ) (r : Bytes) → seq < word → get_uint64 (nonce_of seq ++ r) ≡ seq
unfolding nonce_of
number_back seq r h = rw append_assoc (get-put_uint64 seq ((0 ∷ 0 ∷ 0 ∷ 0 ∷ []) ++ r) h)

module _ (a : Aead) where
  -- What a layer adds to the wire: a nonce and a tag.
  pub length-seal_seq :
      (key : Bytes) (seq : ℕ) (text : Bytes) → length (seal_seq a key seq text) ≡ length text + 28
  unfolding seal_seq
  length-seal_seq key seq text = omega (
    arith,
    length-append {0} (nonce_of seq) (a.seal key (nonce_of seq) text),
    length-nonce_of seq,
    a.length-seal key (nonce_of seq) text,
  )

  -- A sealed layer opens under its key, and shows its sequence number.
  pub open_seq-seal_seq :
      (key : Bytes) (seq : ℕ) (text : Bytes)
      → seq < word
      → open_seq a key (seal_seq a key seq text) ≡ ok (seq, text)
  unfolding open_seq seal_seq
  open_seq-seal_seq key seq text h =
      let box = a.seal key (nonce_of seq) text in
      let size = length-seal_seq key seq text in
      let long : ltb (length (seal_seq a key seq text)) (nonce_size + tag_size) ≡ false =
        ground (arith, size) in
      rw (
        long,
        take-append 12 (nonce_of seq) box (length-nonce_of seq),
        drop-append 12 (nonce_of seq) box (length-nonce_of seq),
        a.unseal-seal key (nonce_of seq) text,
        number_back seq box h,
      )
