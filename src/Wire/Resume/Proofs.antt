-- ===== src/Wire/Resume/Proofs.antt =====
-- sail/wire/cell.go: a resume proof is read back, and nothing else is accepted.
use Prim.Native.Nat.{bit_or, bit_xor}
use sailnet.Common.{
  ℕ, ◌<◌, ◌≡◌, ◌↔◌, refl, sym, ap, ◌∙◌, arith, [], ◌∷◌, ◌++◌, append_assoc, Bool, true, ◌&&◌, not,
  some, All,
}
use sailnet.Common.{
  ltb, Bool-cases, inl, inr, ◌==◌, if◌then◌else◌, length, take, drop, length-append, take-append,
  drop-append, take-append-drop, Bytes, put_uint64, get_uint64, get-put_uint64,
}
use sailnet.Wire.Ws.Xor.{passes, read_table}
use sailnet.Wire.Resume.{
  Blake, id_label, differences, hmac_equal, resume_id, resume_proof, verify_resume,
}

abbrev pub IsBytes : Bytes → Type 0
IsBytes b = All (λ x. x < 256) b

-- The two facts of `|` and `^` on bytes, read off a table.
xor_ok : ℕ → ℕ → Bool
xor_ok x y = ltb (bit_xor x y) 256 && (if x == y then bit_xor x y == 0 else not (bit_xor x y == 0))

or_ok : ℕ → ℕ → Bool
or_ok v w =
    ltb (bit_or v w) 256
    && (if (v == 0) && (w == 0) then bit_or v w == 0 else not (bit_or v w == 0))

xor_table : passes (λ x. passes (xor_ok x) 256) 256 ≡ true
unfolding passes xor_ok
xor_table = refl

or_table : passes (λ v. passes (or_ok v) 256) 256 ≡ true
unfolding passes or_ok
or_table = refl

step_facts :
    (v x y : ℕ)
    → v < 256
    → x < 256
    → y < 256
    → (bit_or v (bit_xor x y) < 256) × ((bit_or v (bit_xor x y) ≡ 0) ↔ ((v ≡ 0) × (x ≡ y)))
unfolding xor_ok or_ok
step_facts v x y hv hx hy =
    let a = read_table xor_ok x y hx hy xor_table in
    let small : bit_xor x y < 256 = ground (arith, a) in
    let b = read_table or_ok v (bit_xor x y) hv small or_table in ground (arith, a, b)

differences_zero :
    (a b : Bytes) (v : ℕ)
    → length a ≡ length b
    → IsBytes a
    → IsBytes b
    → v < 256
    → (differences a b v ≡ 0) ↔ ((v ≡ 0) × (a ≡ b))
unfolding differences
differences_zero [] [] v l ha hb hv = ground arith
differences_zero [] (y ∷ b) v l ha hb hv = absurd (omega (arith, l))
differences_zero (x ∷ a) [] v l ha hb hv = absurd (omega (arith, l))
differences_zero (x ∷ a) (y ∷ b) v l (hx, ha) (hy, hb) hv =
    let (small, same) = step_facts v x y hv hx hy in
    ground
      (arith, same, differences_zero a b (bit_or v (bit_xor x y)) (omega (arith, l)) ha hb small)

-- The comparison, which looks at every byte, finds two byte strings equal exactly when they are.
pub hmac_equal_iff : (a b : Bytes) → IsBytes a → IsBytes b → (hmac_equal a b ≡ true) ↔ (a ≡ b)
unfolding hmac_equal
hmac_equal_iff a b ha hb = elim (Bool-cases (length a == length b)) [
  | inl e ↦ ground (arith, e, differences_zero a b 0 (ground (arith, e)) ha hb)
  | inr e ↦ (λ h. absurd (ground (arith, e, h)), λ h. absurd (ground (arith, e, ap length h)))
]

module _ (h : Blake) (sum_len : (b : Bytes) → length (h.sum b) ≡ 32)
    (mac_len : (k b : Bytes) → length (h.mac k b) ≡ 32)
    (mac_bytes : (k b : Bytes) → IsBytes (h.mac k b)) where
  accepted :
      (key p : Bytes) (ts recv : ℕ)
      → length p ≡ 80
      → hmac_equal (h.mac key (take 48 p)) (drop 48 p) ≡ true
      → get_uint64 (drop 32 p) ≡ ts
      → get_uint64 (drop 40 p) ≡ recv
      → verify_resume h key p ≡ some (ts, recv)
  unfolding verify_resume
  accepted key p ts recv l e t r = ground (arith, l, e, t, r)

  read :
      (id t r key : Bytes) (ts recv : ℕ)
      → length id ≡ 32
      → length t ≡ 8
      → length r ≡ 8
      → ((z : Bytes) → get_uint64 (t ++ z) ≡ ts)
      → ((z : Bytes) → get_uint64 (r ++ z) ≡ recv)
      → verify_resume h key ((id ++ (t ++ r)) ++ h.mac key (id ++ (t ++ r))) ≡ some (ts, recv)
  read id t r key ts recv li lt lr gt gr =
      let buf : Bytes = id ++ (t ++ r) in
      let m = h.mac key buf in
      let lbuf : length buf ≡ 48 =
        omega (arith, li, lt, lr, length-append id (t ++ r), length-append t r) in
      let ltake : take 48 (buf ++ m) ≡ buf = take-append 48 buf m lbuf in
      let ldrop : drop 48 (buf ++ m) ≡ m = drop-append 48 buf m lbuf in
      let from_t : drop 32 (buf ++ m) ≡ t ++ (r ++ m) =
        ap (drop 32) (append_assoc id (t ++ r) m ∙ ap (λ z. id ++ z) (append_assoc t r m))
        ∙ drop-append 32 id (t ++ (r ++ m)) li in
      let from_r : drop 40 (buf ++ m) ≡ r ++ m =
        ap (λ z. drop 40 (z ++ m)) (sym (append_assoc id t r))
        ∙ ap (drop 40) (append_assoc (id ++ t) r m)
        ∙ drop-append 40 (id ++ t) (r ++ m) (omega (arith, li, lt, length-append id t)) in
      accepted key (buf ++ m) ts recv (omega (arith, length-append buf m, lbuf, mac_len key buf))
        (ap (λ z. hmac_equal (h.mac key z) (drop 48 (buf ++ m))) ltake
          ∙ ap (hmac_equal m) ldrop
          ∙ (hmac_equal_iff m m (mac_bytes key buf) (mac_bytes key buf)).1 refl)
        (ap get_uint64 from_t ∙ gt (r ++ m)) (ap get_uint64 from_r ∙ gr m)

  -- The entry reads back, under the same key, the time and the sequence that the client proved. Both
  -- are uint64s; MACs and hashes have 32 bytes.
  pub verify_resume-resume_proof :
      (key : Bytes) (ts recv : ℕ)
      → ts < 18446744073709551616
      → recv < 18446744073709551616
      → verify_resume h key (resume_proof h key ts recv) ≡ some (ts, recv)
  unfolding resume_proof resume_id put_uint64
  verify_resume-resume_proof key ts recv ht hr =
      read (resume_id h key) (put_uint64 ts) (put_uint64 recv) key ts recv
        (sum_len (id_label ++ key)) refl refl (λ r. get-put_uint64 ts r ht)
        (λ r. get-put_uint64 recv r hr)

  -- Whatever payload of bytes is accepted for a key has 80 bytes, and the last 32 are the key's MAC of
  -- the first 48; the time and the sequence are those that the payload carries. MACs and hashes have
  -- 32 bytes.
  pub verify_resume_sound :
      (key payload : Bytes) (x : ℕ × ℕ)
      → IsBytes (drop 48 payload)
      → verify_resume h key payload ≡ some x
      → (length payload ≡ 80)
        × (payload ≡ take 48 payload ++ h.mac key (take 48 payload))
        × (x ≡ (get_uint64 (drop 32 payload), get_uint64 (drop 40 payload)))
  unfolding verify_resume
  verify_resume_sound key payload x hb e =
      let iff =
        hmac_equal_iff (h.mac key (take 48 payload)) (drop 48 payload)
          (mac_bytes key (take 48 payload)) hb in
      let (len, eq, val) = parts e in
      (
        len,
        sym (take-append-drop 48 payload) ∙ ap (λ r. take 48 payload ++ r) (sym (iff.0 eq)),
        val,
      )
    where
      parts :
          verify_resume h key payload ≡ some x
          → (length payload ≡ 80)
            × (hmac_equal (h.mac key (take 48 payload)) (drop 48 payload) ≡ true)
            × (x ≡ (get_uint64 (drop 32 payload), get_uint64 (drop 40 payload)))
      parts e = ground (arith, e)
