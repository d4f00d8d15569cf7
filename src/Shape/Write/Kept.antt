-- ===== src/Shape/Write/Kept.antt =====
-- sail/shape/write.go: no byte is lost, doubled or moved.
use mathlib.Core.Path.{subst}
use sailnet.Common.{
  ℕ, zero, suc, ◌+◌, ◌-◌, ◌≡◌, refl, sym, ap, ◌∙◌, arith, List, [], ◌∷◌, ◌++◌, append-nil,
  append_assoc, Bool, true, false, ◌&&◌, ◌||◌,
}
use sailnet.Common.{
  ltb, leb, ◌==◌, if◌then◌else◌, length, take, drop, take-append-drop, length-append, Bytes,
}
use sailnet.Shape.Write.{
  Shaper, ChunkWriter, Progress, cut, send_chunk, drain_loop, drain, fill, front_loop, write,
}

pub joined : List Bytes → Bytes
joined [] = []
joined (x ∷ xs) = x ++ joined xs

joined-snoc : (xs : List Bytes) (x : Bytes) → joined (xs ++ (x ∷ [])) ≡ joined xs ++ x
unfolding joined
joined-snoc [] x = append-nil x
joined-snoc (y ∷ ys) x = rw append_assoc (ap (λ r. y ++ r) (joined-snoc ys x))

-- The bytes taken and the bytes queued, in order.
abbrev pub stream : List Bytes → Shaper → Bytes
stream out s = joined out ++ s.queue

module _ (pad : ℕ → Bytes) where
  -- The padding cells that take the count of padding from one number to another, one after the other.
  pub data IsPadding : ℕ → Bytes → ℕ → Type 0 where
    none_spent : {n : ℕ} → IsPadding n [] n
    cell_spent :
        {n m : ℕ} {r : Bytes} → IsPadding (n + length (pad n)) r m → IsPadding n (pad n ++ r) m

  one_cell : (n : ℕ) → IsPadding n (pad n) (n + length (pad n))
  one_cell n =
      subst (λ r. IsPadding n r (n + length (pad n))) (append-nil (pad n)) (cell_spent none_spent)

  IsPadding-append :
      {l m n : ℕ} {x y : Bytes} → IsPadding l x m → IsPadding m y n → IsPadding l (x ++ y) n
  IsPadding-append none_spent q = q
  IsPadding-append {l} {m} {n} {x} {y} (cell_spent {r = r} p) q =
      subst (λ z. IsPadding l z n) (sym (append_assoc (pad l) r y))
        (cell_spent (IsPadding-append p q))

  -- What was in the stream is still there, followed by padding cells only, which are counted.
  pub record Carries (s : Shaper) (out : List Bytes) (p : Progress) : Type 0 where
    pub pads : Bytes
    pub kept : stream p.out p.shaper ≡ stream out s ++ pads
    pub counted : p.shaper.padding ≡ s.padding + length pads
    pub padded : IsPadding s.padding pads p.shaper.padding
    pub same_data : p.shaper.data_sent ≡ s.data_sent

  pick :
      (a b : Bool) (s : Shaper) (out : List Bytes) {x y z : Progress}
      → Carries s out x
      → Carries s out y
      → Carries s out z
      → Carries s out (if a then x else (if b then y else z))
  pick true b s out x y z = x
  pick false true s out x y z = y
  pick false false s out x y z = z

  module _ (w : ChunkWriter) where
    stays :
        (s : Shaper) (out : List Bytes) (f : Bool)
        → Carries s out (record { shaper = s; out = out; failed = f })
    stays s out f = record {
      pads = [];
      kept = sym (append-nil (stream out s));
      counted = omega arith;
      padded = none_spent;
      same_data = refl;
    }

    after :
        (s t : Shaper) (o1 o2 : List Bytes) (f : Bool) (p : Progress)
        → Carries s o1 (record { shaper = t; out = o2; failed = f })
        → Carries t o2 p
        → Carries s o1 p
    after s t o1 o2 f p a b = record {
      pads = a.pads ++ b.pads;
      kept = b.kept ∙ ap (λ x. x ++ b.pads) a.kept ∙ append_assoc (stream o1 s) a.pads b.pads;
      counted = omega (arith, a.counted, b.counted, length-append a.pads b.pads);
      padded = IsPadding-append a.padded b.padded;
      same_data = b.same_data ∙ a.same_data;
    }

    send_chunk-Carries :
        (n : ℕ) (s : Shaper) (out : List Bytes) → Carries s out (send_chunk w n s out)
    unfolding send_chunk
    send_chunk-Carries n s out = go (w.takes out (take n s.queue)) refl
      where
        go : (b : Bool) → w.takes out (take n s.queue) ≡ b → Carries s out (send_chunk w n s out)
        go false e = rw e (stays s out true)
        go true e = rw e (record {
          pads = [];
          kept =
              ap (λ x. x ++ drop n s.queue) (joined-snoc out (take n s.queue))
              ∙ append_assoc (joined out) (take n s.queue) (drop n s.queue)
              ∙ ap (λ x. joined out ++ x) (take-append-drop n s.queue)
              ∙ sym (append-nil (stream out s));
          counted = omega arith;
          padded = none_spent;
          same_data = refl;
        })

    drain_loop-Carries :
        (fuel : ℕ) (hold : Bool) (s : Shaper) (out : List Bytes)
        → Carries s out (drain_loop w fuel hold s out)
    unfolding drain_loop
    drain_loop-Carries zero hold s out = stays s out false
    drain_loop-Carries (suc fuel) hold s out =
        let n = cut w s.params (length s.queue) in
        let p = send_chunk w n s out in
        let c = send_chunk-Carries n s out in
        pick (length s.queue == 0)
          (p.failed
            || (hold && ltb n (length s.queue) && ltb (length s.queue - n) s.params.min_record))
          s out (stays s out false) c
          (after s p.shaper out p.out p.failed (drain_loop w fuel hold p.shaper p.out) c
            (drain_loop-Carries fuel hold p.shaper p.out))

    drain-Carries :
        (hold : Bool) (s : Shaper) (out : List Bytes) → Carries s out (drain w hold s out)
    unfolding drain
    drain-Carries hold s out = drain_loop-Carries (length s.queue) hold s out

    fill-Carries :
        (fuel chunk : ℕ) (s : Shaper) (out : List Bytes)
        → Carries s out (record { shaper = (fill w pad fuel chunk s).0; out = out; failed = false })
    unfolding fill
    fill-Carries zero chunk s out = stays s out false
    fill-Carries (suc fuel) chunk s out =
        let cell = pad s.padding in
        let t : Shaper = record s {
          budget = s.budget - length cell;
          padding = s.padding + length cell;
          queue = s.queue ++ cell;
        } in
        let rest = fill w pad fuel chunk t in
        let grown : Carries s out (record { shaper = t; out = out; failed = false }) = record {
          pads = cell;
          kept = sym (append_assoc (joined out) s.queue cell);
          counted = refl;
          padded = one_cell s.padding;
          same_data = refl;
        } in
        let ih =
          after s t out out false (record { shaper = rest.0; out = out; failed = false }) grown
            (fill-Carries fuel chunk t out) in
        choose (leb chunk (length s.queue)) (s.budget == 0) (s, true) (s, false) rest
          (stays s out false) (stays s out false) ih
      where
        choose :
            (a b : Bool) (x y z : Shaper × Bool)
            → Carries s out (record { shaper = x.0; out = out; failed = false })
            → Carries s out (record { shaper = y.0; out = out; failed = false })
            → Carries s out (record { shaper = z.0; out = out; failed = false })
            → Carries s out (record {
              shaper = (if a then x else (if b then y else z)).0;
              out = out;
              failed = false;
            })
        choose true b x y z p q r = p
        choose false true x y z p q r = q
        choose false false x y z p q r = r

    -- The record sizes still to come do not touch the stream.
    front_set :
        (s : Shaper) (out : List Bytes) (p : Progress) (l : List ℕ)
        → Carries s out p
        → Carries s out (record p { shaper = record p.shaper { front = l } })
    front_set s out p l c = record {
      pads = c.pads;
      kept = c.kept;
      counted = c.counted;
      padded = c.padded;
      same_data = c.same_data;
    }

    from_front :
        (s : Shaper) (out : List Bytes) (p : Progress) (l : List ℕ)
        → Carries (record s { front = l }) out p
        → Carries s out p
    from_front s out p l c = record {
      pads = c.pads;
      kept = c.kept;
      counted = c.counted;
      padded = c.padded;
      same_data = c.same_data;
    }

    front_loop-Carries :
        (front : List ℕ) (s : Shaper) (out : List Bytes)
        → Carries s out (front_loop w pad front s out)
    unfolding front_loop
    front_loop-Carries [] s out =
        from_front s out (drain w true (record s { front = [] }) out) []
          (drain-Carries true (record s { front = [] }) out)
    front_loop-Carries (want ∷ r) s out =
        let chunk = want - w.wire_size 0 in
        let f = fill w pad s.budget chunk s in
        let p = send_chunk w chunk f.0 out in
        let filled = fill-Carries s.budget chunk s out in
        let sent = after s f.0 out out false p filled (send_chunk-Carries chunk f.0 out) in
        let last = drain w true (record f.0 { front = [] }) out in
        let steady =
          after s f.0 out out false last filled
            (from_front f.0 out last [] (drain-Carries true (record f.0 { front = [] }) out)) in
        let next =
          after s p.shaper out p.out p.failed (front_loop w pad r p.shaper p.out) sent
            (front_loop-Carries r p.shaper p.out) in
        let stopped = front_set s out p (want ∷ r) sent in
        pick (chunk == 0) f.1 s out (front_loop-Carries r s out)
          (pick p.failed true s out stopped next next) steady

    -- `Write`, whatever the connection takes, and also when it fails midway: the bytes taken, with
    -- those still queued, are what had been taken and was queued before, then the payload, then
    -- padding cells. The payload and the padding are counted exactly.
    pub write_keeps_bytes :
        (s : Shaper) (payload : Bytes) (out : List Bytes)
        → let p = write w pad s payload out in
          (pads : Bytes) × (joined p.out ++ p.shaper.queue
            ≡ (joined out ++ (s.queue ++ payload)) ++ pads)
          × IsPadding s.padding pads p.shaper.padding
          × (p.shaper.padding ≡ s.padding + length pads)
          × (p.shaper.data_sent ≡ s.data_sent + length payload)
    unfolding write
    write_keeps_bytes s payload out =
        let s' = record s {
          data_sent = s.data_sent + length payload;
          queue = s.queue ++ payload;
        } in
        let c = front_loop-Carries s.front s' out in
        (c.pads, c.kept, c.padded, c.counted, c.same_data)
