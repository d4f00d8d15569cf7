-- ===== src/Relay/Exchange/Whole.antt =====
-- sail/relay/rpcover.go and gossip.go: an answer that is cut into cells and read again.
use sailnet.Common.{ℕ, zero, suc, ◌+◌, ◌*◌, ◌≤◌, ◌<◌, ◌≡◌, refl, sym, ap, ◌∙◌, arith, inl, inr}
use sailnet.Common.{
  List, [], ◌∷◌, ◌++◌, append_assoc, append-nil, Bool, true, false, ◌==◌, ==_iff, if◌then◌else◌,
  ltb,
}
use sailnet.Common.{
  length, take, drop, take-append-drop, length-drop, length-take, take_all, Bytes, some,
  order_cases,
}
use sailnet.Wire.Cell.{Cell}
use sailnet.Relay.Exchange.{
  cut, cells_from, send_body, rpc_reply, relays_reply, whole, unfinished, collect, read_rpc,
  fetch_relays, is_empty, is_reply, is_relays, reply_cell, relays_cell, called, tries_again,
  limited, got, what_came,
}

-- Every cell that is made is one of the answer, and no error.
abbrev pub Makes : (Cell → Bool) → (ℕ → Bytes → Cell) → Type 0
Makes wants make =
    (seq : ℕ) (p : Bytes)
    → (wants (make seq p) ≡ true) × ((make seq p).payload ≡ p) × (((make seq p).cmd == 12) ≡ false)

holds_some : (p : Bytes) → 1 ≤ length p → is_empty p ≡ false
holds_some [] h = absurd (omega arith)
holds_some (x ∷ xs) h = refl

take_none : (b : Bytes) (k : ℕ) → k ≡ 0 → take k b ≡ []
unfolding take
take_none b k h = rw h refl

take_plus : (k m : ℕ) (b : Bytes) → take k b ++ take m (drop k b) ≡ take (k + m) b
unfolding take drop
take_plus zero m b = let e : m ≡ zero + m = omega arith in ap (λ n. take n b) e
take_plus (suc k) zero [] = let e : suc k + zero ≡ suc k = omega arith in rw e refl
take_plus (suc k) (suc m) [] = let e : suc k + suc m ≡ suc (k + suc m) = omega arith in rw e refl
take_plus (suc k) m (x ∷ b) =
    let e : suc (k + m) ≡ suc k + m = omega arith in
    ap (λ r. x ∷ r) (take_plus k m b) ∙ ap (λ n. take n (x ∷ b)) e

-- One payload and what the next `n` have room for.
first_piece :
    (n : ℕ) (b : Bytes)
    → suc n * 1000 < length b + 1000
    → let k = if ltb 1000 (length b) then 1000 else length b in
      take k b ++ take (n * 1000) (drop k b) ≡ take (suc n * 1000) b
first_piece n b l =
    let k = if ltb 1000 (length b) then 1000 else length b in
    elim (order_cases (length b) 1000) [
      | inl short ↦
          let size : k + n * 1000 ≡ length b = ground (arith, short, l) in
          take_plus k (n * 1000) b
          ∙ ap (λ m. take m b) size
          ∙ take_all (length b) b (omega arith)
          ∙ sym (take_all (suc n * 1000) b (omega (arith, short)))
      | inr long ↦
          let size : k + n * 1000 ≡ suc n * 1000 = ground (arith, long) in
          take_plus k (n * 1000) b ∙ ap (λ m. take m b) size
    ]

module _ (wants : Cell → Bool) (make : ℕ → Bytes → Cell) (m : Makes wants make) where
  collect_end : (n seq : ℕ) (out : Bytes) → collect wants (suc n) (make seq [] ∷ []) out ≡ whole out
  unfolding collect
  collect_end n seq out = let (a, b, c) = m seq [] in rw (c, a, b) refl

  collect_next :
      (n seq : ℕ) (p : Bytes) (cs : List Cell) (out : Bytes)
      → 1 ≤ length p
      → collect wants (suc n) (make seq p ∷ cs) out ≡ collect wants n cs (out ++ p)
  unfolding collect
  collect_next n seq p cs out h =
      let (a, b, c) = m seq p in let some_left = holds_some p h in rw (c, a, b, some_left) refl

  -- With room for all the cells and the end, the whole body.
  collect-whole :
      (fuel n seq : ℕ) (body out : Bytes)
      → length body ≤ fuel
      → length body + 1000 ≤ n * 1000
      → collect wants n (cells_from make seq (cut fuel body)) out ≡ whole (out ++ body)
  unfolding cut cells_from
  collect-whole fuel zero seq body out h l = absurd (omega arith)
  collect-whole zero (suc n) seq [] out h l =
      collect_end n seq out ∙ ap whole (sym (append-nil out))
  collect-whole zero (suc n) seq (x ∷ xs) out h l = absurd (omega arith)
  collect-whole (suc fuel) (suc n) seq [] out h l =
      collect_end n seq out ∙ ap whole (sym (append-nil out))
  collect-whole (suc fuel) (suc n) seq (x ∷ xs) out h l =
      let body = x ∷ xs in
      let k = if ltb 1000 (length body) then 1000 else length body in
      let size = length-take k body in
      let rest = length-drop k body in
      let cs = cells_from make (suc seq) (cut fuel (drop k body)) in
      collect_next n seq (take k body) cs out (ground (arith, size))
      ∙ collect-whole fuel n (suc seq) (drop k body) (out ++ take k body) (ground (arith, rest, h))
          (ground (arith, rest, l))
      ∙ ap whole (append_assoc out (take k body) (drop k body))
      ∙ ap (λ b. whole (out ++ b)) (take-append-drop k body)

  -- Without, what there was room for.
  collect-unfinished :
      (fuel n seq : ℕ) (body out : Bytes)
      → length body ≤ fuel
      → n * 1000 < length body + 1000
      → collect wants n (cells_from make seq (cut fuel body)) out
        ≡ unfinished (out ++ take (n * 1000) body)
  unfolding cut cells_from collect
  collect-unfinished fuel zero seq body out h l =
      ap unfinished (sym (append-nil out))
      ∙ ap (λ b. unfinished (out ++ b)) (sym (take_none body (0 * 1000) (omega arith)))
  collect-unfinished zero (suc n) seq [] out h l = absurd (omega arith)
  collect-unfinished zero (suc n) seq (x ∷ xs) out h l = absurd (omega arith)
  collect-unfinished (suc fuel) (suc n) seq [] out h l = absurd (omega arith)
  collect-unfinished (suc fuel) (suc n) seq (x ∷ xs) out h l =
      let body = x ∷ xs in
      let k = if ltb 1000 (length body) then 1000 else length body in
      let size = length-take k body in
      let rest = length-drop k body in
      let cs = cells_from make (suc seq) (cut fuel (drop k body)) in
      collect_next n seq (take k body) cs out (ground (arith, size))
      ∙ collect-unfinished fuel n (suc seq) (drop k body) (out ++ take k body)
          (ground (arith, rest, h)) (ground (arith, rest, l))
      ∙ ap unfinished (append_assoc out (take k body) (take (n * 1000) (drop k body)))
      ∙ ap (λ b. unfinished (out ++ b)) (first_piece n body l)

rpc_reply-Makes : (id : ℕ) → Makes (is_reply id) (reply_cell id)
rpc_reply-Makes id seq p = (ground (arith, ==_iff id id), refl, ground arith)

relays_reply-Makes : Makes is_relays relays_cell
relays_reply-Makes seq p = (ground arith, refl, ground arith)

-- The client reads the whole answer of its entry to a ledger request, byte for byte, when it is at most
-- 255000 bytes, except that one that says the rate is limited becomes an error; a longer one it never
-- gets, although the entry sends it all: it tries again.
pub read_rpc-rpc_reply :
    (says_limit : Bytes → Bool) (id : ℕ) (body : Bytes)
    → read_rpc says_limit id (rpc_reply id body) ≡ (
        if ltb 255000 (length body)
        then tries_again
        else (if says_limit body then limited else got body))
unfolding read_rpc rpc_reply send_body called
read_rpc-rpc_reply says_limit id body = elim (order_cases (length body) 255000) [
  | inl h ↦
      ap (called says_limit) (
        collect-whole (is_reply id) (reply_cell id) (rpc_reply-Makes id) (length body) 256 0 body []
          (omega arith) (omega (arith, h)))
      ∙ ground (arith, h)
  | inr h ↦
      ap (called says_limit) (
        collect-unfinished (is_reply id) (reply_cell id) (rpc_reply-Makes id) (length body) 256 0
          body [] (omega arith) (omega (arith, h)))
      ∙ ground (arith, h)
]

-- Of the records a relay sends, the asker gets the first 64000 bytes of the text: all of it, if it is no
-- longer, and of a longer one no more, although the relay sends it all.
pub fetch_relays-relays_reply :
    (body : Bytes) → fetch_relays (relays_reply body) ≡ some (take 64000 body)
unfolding fetch_relays relays_reply send_body
fetch_relays-relays_reply body = elim (order_cases (length body) 63000) [
  | inl h ↦
      ap what_came (
        collect-whole is_relays relays_cell relays_reply-Makes (length body) 64 0 body []
          (omega arith) (omega (arith, h)))
      ∙ ap some (sym (take_all 64000 body (omega (arith, h))))
  | inr h ↦ ap what_came (
      collect-unfinished is_relays relays_cell relays_reply-Makes (length body) 64 0 body []
        (omega arith) (omega (arith, h)))
]
