-- ===== src/Relay/Server/TopUp/Net.antt =====
-- sail/relay/server.go: what a top-up leaves in the quota once it is over.
use Prim.Native.String.{String}
use mathlib.Core.Option.{get_or}
use sailnet.Common.{ℕ, zero, suc, ◌<◌, ◌≡◌, ◌≢◌, refl, sym, ap, ◌∙◌, ◌⊎◌, inl, inr, arith}
use sailnet.Common.{true, Option, some, lookup, Bytes, add64, sub64, word, Bool-cases, Option-cases}
use sailnet.Relay.Quota.{Quota, at, add, consume, remaining, known}
use sailnet.Relay.Quota.Effects.{
  lookup-credit, credit_consumed, lookup-add, lookup-add_other, add_consumed, add-known,
  consume_credit, remaining-consume,
}
use sailnet.Relay.Server.Payment.{
  Reply, Outcome, no_answer, unconfirmed, refused, paid, is_paid, Till, Terms, credit_from_ledger,
}
use sailnet.Relay.Server.Payment.Sound.{credit_from_ledger_sound}
use sailnet.Relay.Server.TopUp.{
  Supplied, Publish, published, old_block, not_published, Failure, Answer, failed, topped_up,
  credit_rounds, settle, with_quota, take_back, finish_top_up, confirm_top_up, handle_top_up,
  check_top_up, provisional, after_round, not_credited, publish_failed,
}

module _ (key : String → String) (tag hash : String) where
  -- The circuit's credit and what is used of the block are the same.
  abbrev pub Same : Till → Till → Type 0
  Same s s' =
      (lookup (key tag) s'.quota.credit ≡ lookup (key tag) s.quota.credit)
      × (lookup (key hash) s'.quota.consumed ≡ lookup (key hash) s.quota.consumed)

  -- The rest of the relay keeps them.
  abbrev pub Keeps : (ℕ → Till → Till) → Type 0
  Keeps others = (i : ℕ) (s : Till) → Same s (others i s)

Same-trans :
    (key : String → String) (tag hash : String) (a b c : Till)
    → Same key tag hash a b
    → Same key tag hash b c
    → Same key tag hash a c
Same-trans key tag hash a b c (x, y) (z, w) = (z ∙ x, w ∙ y)

after_round-Same :
    (key : String → String) (tag hash : String) (s : Till) (again : Till × Outcome) (o : Outcome)
    → Same key tag hash s again.0
    → Same key tag hash s (after_round s again o).0
unfolding after_round
after_round-Same key tag hash s again unconfirmed h = h
after_round-Same key tag hash s again no_answer h = (refl, refl)
after_round-Same key tag hash s again (refused e) h = (refl, refl)
after_round-Same key tag hash s again (paid owner) h = (refl, refl)

provisional_bounds : (rate : ℕ) → provisional rate < word
unfolding provisional
provisional_bounds rate = ground arith

module _ (key : String → String) where
  -- With the provisional credit `p` on top of `x`, and `y` of the block used: its rest moves.
  settle_lem :
      (tag hash : String) (p x y : ℕ) (q : Quota)
      → key hash ≢ key tag
      → lookup (key tag) q.credit ≡ some (add64 x p)
      → at (key hash) q.consumed ≡ y
      → y < word
      → p < word
      → let r = settle key tag hash p q in
        (at (key tag) r.0.credit ≡ add64 x (sub64 (at (key hash) r.0.credit) y))
        × (remaining key r.0 hash ≡ 0)
        × (r.2 ≡ true)
  unfolding settle known remaining
  settle_lem tag hash p x y q d e f v w =
      let bytes = remaining key q hash in
      let c = (consume key q hash bytes).0 in
      let same = consume_credit key q hash bytes in
      let here : lookup (key tag) c.credit ≡ some (add64 x p) = ap (lookup (key tag)) same ∙ e in
      let there : at (key hash) c.credit ≡ at (key hash) q.credit = ap (at (key hash)) same in
      let rest = remaining-consume key q hash (rw f v) in
      let on = lookup-add key c tag (sub64 bytes p) in
      let off : at (key hash) (add key c tag (sub64 bytes p)).0.credit ≡ at (key hash) c.credit =
        ap (λ o. get_or o 0)
          (lookup-add_other key c tag (key hash) (sub64 bytes p) (λ z. d (sym z))) in
      let used = ap (at (key hash)) (add_consumed key c tag (sub64 bytes p)) in
      let known_here = add-known key c tag (sub64 bytes p) in
      (
        ground (arith, here, there, on, off, f, v, w),
        ground (arith, off, used, rest),
        ground (arith, known_here, here),
      )

  take_back_lem :
      (tag : String) (p x : ℕ) (s : Till)
      → lookup (key tag) s.quota.credit ≡ some (add64 x p)
      → x < word
      → p < word
      → at (key tag) (take_back key tag p s).quota.credit ≡ x
  unfolding take_back known
  take_back_lem tag p x s e v w = ground (arith, e, v, w, lookup-add key s.quota tag (sub64 0 p))

  add_provisional :
      (tag : String) (p x : ℕ) (q : Quota)
      → lookup (key tag) q.credit ≡ some x
      → lookup (key tag) (add key q tag p).0.credit ≡ some (add64 x p)
  unfolding known
  add_provisional tag p x q e = ground (arith, e, lookup-add key q tag p)

  -- What a top-up leaves at its end, when the circuit's credit was `x` before it and `y` of the block was
  -- used.
  abbrev pub Nets : String → String → ℕ → ℕ → Till × Answer → Type 0
  Nets tag hash x y r =
      ((f : Failure) × (r.1 ≡ failed f) × (at (key tag) r.0.quota.credit ≡ x))
      ⊎ ((rem : ℕ) × (r.1 ≡ topped_up rem)
          × (at (key tag) r.0.quota.credit ≡ add64 x (sub64 (at (key hash) r.0.quota.credit) y))
          × (remaining key r.0.quota hash ≡ 0))

  -- The provisional credit `p` stands on top of `x`, and `y` of the block is used.
  pub record IsWaiting (tag hash : String) (p x y : ℕ) (s : Till) : Type 0 where
    pub apart : key hash ≢ key tag
    pub provided : lookup (key tag) s.quota.credit ≡ some (add64 x p)
    pub used : at (key hash) s.quota.consumed ≡ y
    pub words : (x < word) × (y < word) × (p < word)

  Same-IsWaiting :
      (tag hash : String) (p x y : ℕ) (s s' : Till)
      → Same key tag hash s s'
      → IsWaiting tag hash p x y s
      → IsWaiting tag hash p x y s'
  Same-IsWaiting tag hash p x y s s' (a, b) h = record {
    apart = h.apart;
    provided = a ∙ h.provided;
    used = ap (λ o. get_or o 0) b ∙ h.used;
    words = h.words;
  }

  finish_top_up-Nets :
      (tag hash : String) (p x y : ℕ) (s : Till) (o : Outcome)
      → IsWaiting tag hash p x y s
      → Nets tag hash x y (finish_top_up key tag hash p (s, o))
  unfolding finish_top_up
  finish_top_up-Nets tag hash p x y s o h =
      let (w, v, l) = h.words in
      let (a, b, c) = settle_lem tag hash p x y s.quota h.apart h.provided h.used v l in
      elim (Bool-cases (is_paid o)) [
        | inr n ↦
            rw (finish_top_up, n)
              (inl (not_credited o, refl, take_back_lem tag p x s h.provided w l))
        | inl m ↦ rw (finish_top_up, m, c) (inr ((settle key tag hash p s.quota).1, refl, a, b))
      ]

module _ (key : String → String) (pubkey_of : String → Option Bytes)
    (owner_hex : String → Option String) where
  credit_from_ledger-Same :
      (t : Terms) (day : ℕ) (tag hash : String) (reply : Reply) (s : Till)
      → key hash ≢ key tag
      → Same key tag hash s (credit_from_ledger key pubkey_of owner_hex t day hash reply s).0
  credit_from_ledger-Same t day tag hash reply s d =
      elim (credit_from_ledger_sound key pubkey_of owner_hex t day hash reply s) [
        | inl (u, e) ↦ rw e (refl, refl)
        | inr (owner, b, u, v, w, (amount, n, x, p, e)) ↦ rw e.credits (
          lookup-credit key s.quota hash (key tag) _ owner d,
          ap (lookup (key hash)) (credit_consumed key s.quota hash _ owner),
        )
      ]

  credit_rounds-Same :
      (t : Terms) (day : ℕ) (tag hash : String) (replies : ℕ → Reply) (others : ℕ → Till → Till)
      (r : ℕ) (s : Till)
      → key hash ≢ key tag
      → Keeps key tag hash others
      → Same key tag hash s (credit_rounds key pubkey_of owner_hex t day hash replies others r s).0
  unfolding credit_rounds
  credit_rounds-Same t day tag hash replies others zero s d k = (refl, refl)
  credit_rounds-Same t day tag hash replies others (suc r) s d k =
      let (s', o) = credit_from_ledger key pubkey_of owner_hex t day hash (replies r) s in
      let again = credit_rounds key pubkey_of owner_hex t day hash replies others r (others r s') in
      let more =
        Same-trans key tag hash s' (others r s') again.0 (k r s')
          (credit_rounds-Same t day tag hash replies others r (others r s') d k) in
      Same-trans key tag hash s s' (after_round s' again o).0
        (credit_from_ledger-Same t day tag hash (replies r) s d)
        (after_round-Same key tag hash s' again o more)

  credit_rounds-Nets :
      (t : Terms) (day : ℕ) (tag hash : String) (p x y : ℕ) (replies : ℕ → Reply)
      (others : ℕ → Till → Till) (s : Till)
      → Keeps key tag hash others
      → IsWaiting key tag hash p x y s
      → Nets key tag hash x y (
          finish_top_up key tag hash p
            (credit_rounds key pubkey_of owner_hex t day hash replies others 8 s))
  credit_rounds-Nets t day tag hash p x y replies others s k h =
      let (s', o) = credit_rounds key pubkey_of owner_hex t day hash replies others 8 s in
      let same = credit_rounds-Same t day tag hash replies others 8 s h.apart k in
      finish_top_up-Nets key tag hash p x y s' o (Same-IsWaiting key tag hash p x y s s' same h)

  confirm_top_up-Nets :
      (t : Terms) (day : ℕ) (tag hash : String) (p x y : ℕ) (process : Publish)
      (replies : ℕ → Reply) (others : ℕ → Till → Till) (s : Till)
      → Keeps key tag hash others
      → IsWaiting key tag hash p x y s
      → Nets key tag hash x y
          (confirm_top_up key pubkey_of owner_hex t day tag hash p process replies others s)
  unfolding confirm_top_up
  confirm_top_up-Nets t day tag hash p x y published replies others s k h =
      credit_rounds-Nets t day tag hash p x y replies others s k h
  confirm_top_up-Nets t day tag hash p x y old_block replies others s k h =
      credit_rounds-Nets t day tag hash p x y replies others s k h
  confirm_top_up-Nets t day tag hash p x y not_published replies others s k h =
      let (s', o) = credit_from_ledger key pubkey_of owner_hex t day hash (replies 8) s in
      let same = credit_from_ledger-Same t day tag hash (replies 8) s h.apart in
      let h' = Same-IsWaiting key tag hash p x y s s' same h in
      elim (Bool-cases (is_paid o)) [
        | inl m ↦
            rw (confirm_top_up, m) (credit_rounds-Nets t day tag hash p x y replies others s' k h')
        | inr n ↦
            rw (confirm_top_up, n)
              (inl (
                publish_failed,
                refl,
                take_back_lem key tag p x s' h'.provided h'.words.0 h'.words.2,
              ))
      ]

  -- A top-up of a circuit, when it is over, whatever the ledger answered and the rest of the relay did
  -- meanwhile, except to change the circuit's credit or use the block: either it failed, and the circuit's
  -- credit is what it was, the provisional credit being taken back; or the circuit has got exactly what
  -- was left of the block, and the block has nothing left. The circuit's tag is known and is not the
  -- block, and the counts are 64-bit words.
  pub handle_top_up-Nets :
      (t : Terms) (public : Bytes) (day : ℕ) (tag : String) (rate : ℕ) (b : Supplied)
      (process : Publish) (replies : ℕ → Reply) (others : ℕ → Till → Till) (s : Till) (x : ℕ)
      → key b.hash ≢ key tag
      → Keeps key tag b.hash others
      → lookup (key tag) s.quota.credit ≡ some x
      → x < word
      → at (key b.hash) s.quota.consumed < word
      → Nets key tag b.hash x (at (key b.hash) s.quota.consumed) (
          handle_top_up key pubkey_of owner_hex t public day tag rate
            (some b)
            process
            replies
            others
            s)
  unfolding handle_top_up
  handle_top_up-Nets t public day tag rate b process replies others s x d k e w v =
      let p = provisional rate in
      let s' = with_quota s (add key s.quota tag p).0 in
      let y = at (key b.hash) s.quota.consumed in
      let here : IsWaiting key tag b.hash p x y s' = record {
        apart = d;
        provided = add_provisional key tag p x s.quota e;
        used = ap (at (key b.hash)) (add_consumed key s.quota tag p);
        words = (w, v, provisional_bounds rate);
      } in
      let later = Same-IsWaiting key tag b.hash p x y s' (others 9 s') (k 9 s') here in
      elim (Option-cases (check_top_up key t public tag (some b) s.quota)) [
        | inr (f, c) ↦ rw (handle_top_up, c) (inl (f, refl, ap (λ o. get_or o 0) e))
        | inl c ↦
            rw (handle_top_up, c)
              (confirm_top_up-Nets t day tag b.hash p x y process replies others (others 9 s') k
                later)
      ]
