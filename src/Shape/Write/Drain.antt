-- ===== src/Shape/Write/Drain.antt =====
-- sail/shape/write.go: the sizes of the steady records, and the end of the draining loop.
use sailnet.Common.{
  ℕ, zero, suc, ◌+◌, ◌-◌, ◌≤◌, ◌<◌, ◌≡◌, ◌⊎◌, refl, sym, arith, append-nil, append_assoc, ◌∙◌, min,
  List, [], ◌∷◌, ◌++◌, Bool, true, false, ◌&&◌, ◌||◌,
}
use sailnet.Common.{
  ltb, ◌==◌, if◌then◌else◌, length, take, drop, length-take, length-drop, Bytes, inl, All,
}
use sailnet.Shape.Write.{
  Params, Shaper, ChunkWriter, Progress, cut, record_limit, send_chunk, drain_loop, drain, flush,
}

module _ (w : ChunkWriter) where
  cut_bounds :
      (p : Params) (avail : ℕ)
      → 0 < record_limit w p
      → 0 < avail
      → (0 < cut w p avail) × (cut w p avail ≤ avail) × (cut w p avail ≤ record_limit w p)
  unfolding cut
  cut_bounds p avail h k = ground arith

  -- What is left once a draining loop ends without an error: nothing, or, with `hold`, less than the
  -- smallest record.
  drain_loop_ends :
      (fuel : ℕ) (hold : Bool) (s : Shaper) (out : List Bytes)
      → 0 < record_limit w s.params
      → length s.queue ≤ fuel
      → (drain_loop w fuel hold s out).failed ≡ false
      → (length (drain_loop w fuel hold s out).shaper.queue ≡ 0)
        ⊎ ((hold ≡ true)
            × (length (drain_loop w fuel hold s out).shaper.queue < s.params.min_record))
  unfolding drain_loop send_chunk
  drain_loop_ends zero hold s out h l e = inl (ground (arith, l))
  drain_loop_ends (suc fuel) hold s out h l e =
      let n = cut w s.params (length s.queue) in
      let t = record s { queue = drop n s.queue } in
      let o = out ++ (take n s.queue ∷ []) in
      ground (
        arith,
        cut_bounds s.params (length s.queue) h,
        length-drop n s.queue,
        drain_loop_ends fuel hold t o h,
      )

  abbrev pub Fits : ℕ → List Bytes → Type 0
  Fits limit cs = All (λ c. (0 < length c) × (length c ≤ limit)) cs

  -- The chunks that a step adds to what the connection took.
  pub record Adds (limit : ℕ) (out : List Bytes) (p : Progress) : Type 0 where
    pub added : List Bytes
    pub extends : p.out ≡ out ++ added
    pub fits : Fits limit added

  Adds-none :
      (limit : ℕ) (s : Shaper) (out : List Bytes) (f : Bool)
      → Adds limit out (record { shaper = s; out = out; failed = f })
  Adds-none limit s out f = record { added = []; extends = sym (append-nil out); fits = tt }

  Adds-if :
      (limit : ℕ) (out : List Bytes) (a : Bool) {x y : Progress}
      → Adds limit out x
      → (a ≡ false → Adds limit out y)
      → Adds limit out (if a then x else y)
  Adds-if limit out true x y = x
  Adds-if limit out false x y = y refl

  drain_loop-Adds :
      (fuel : ℕ) (hold : Bool) (s : Shaper) (out : List Bytes)
      → 0 < record_limit w s.params
      → Adds (record_limit w s.params) out (drain_loop w fuel hold s out)
  unfolding drain_loop send_chunk
  drain_loop-Adds zero hold s out h = Adds-none (record_limit w s.params) s out false
  drain_loop-Adds (suc fuel) hold s out h =
      Adds-if limit out (length s.queue == 0) (Adds-none limit s out false)
        λ e. go (w.takes out (take n s.queue)) (drain_loop-Adds fuel hold t o h) refl e
    where
      limit : ℕ
      limit = record_limit w s.params

      n : ℕ
      n = cut w s.params (length s.queue)

      t : Shaper
      t = record s { queue = drop n s.queue }

      o : List Bytes
      o = out ++ (take n s.queue ∷ [])

      rest : Progress
      rest = drain_loop w fuel hold t o

      p : Progress
      p = send_chunk w n s out

      go :
          (b : Bool)
          → Adds limit o rest
          → w.takes out (take n s.queue) ≡ b
          → (length s.queue == 0) ≡ false
          → Adds limit out (
              if p.failed
                || (hold && ltb n (length s.queue) && ltb (length s.queue - n) s.params.min_record)
              then p
              else drain_loop w fuel hold p.shaper p.out)
      go false ih q e = rw q (Adds-none limit s out true)
      go true ih q e =
          let fits = cut_bounds s.params (length s.queue) h (ground (arith, e)) in
          let chunk_fits : (0 < length (take n s.queue)) × (length (take n s.queue) ≤ limit) =
            ground (arith, fits, length-take n s.queue) in
          rw q (
            Adds-if limit out
              (hold && ltb n (length s.queue) && ltb (length s.queue - n) s.params.min_record)
              (record { added = take n s.queue ∷ []; extends = refl; fits = (chunk_fits, tt) })
              λ _. record {
                added = take n s.queue ∷ ih.added;
                extends = ih.extends ∙ append_assoc out (take n s.queue ∷ []) ih.added;
                fits = (chunk_fits, ih.fits);
              })

  -- `Flush` with a record limit above zero, whatever is queued and whatever the connection takes: the
  -- chunks it adds are not empty and none is above the limit; and when no write fails, nothing stays
  -- queued, so the loop has ended within its fuel.
  pub flush_empties :
      (s : Shaper) (out : List Bytes)
      → 0 < record_limit w s.params
      → (new : List Bytes) × ((flush w s out).out ≡ out ++ new)
        × Fits (record_limit w s.params) new
        × ((flush w s out).failed ≡ false → length (flush w s out).shaper.queue ≡ 0)
  unfolding flush drain
  flush_empties s out h =
      let a = drain_loop-Adds (length s.queue) false s out h in
      (
        a.added,
        a.extends,
        a.fits,
        λ e. ground (arith, drain_loop_ends (length s.queue) false s out h, e),
      )

  -- With framing that adds the same `extra` bytes to every chunk, and leaves a record limit above zero: no record of the
  -- steady state is larger on the wire than the limit set (16384 when none is set or more is asked),
  -- plus 22.
  pub cut_wire_size :
      (p : Params) (avail extra : ℕ)
      → ((n : ℕ) → w.wire_size n ≡ n + extra)
      → 0 < record_limit w p
      → w.wire_size (cut w p avail)
        ≤ min 16384 (if p.max_record == 0 then 16384 else p.max_record) + 22
  unfolding cut record_limit
  cut_wire_size p avail extra e h =
      let m =
        if p.max_record == 0
        then 16384
        else (if ltb 16384 p.max_record then 16384 else p.max_record) in
      ground (arith, e (cut w p avail), e m)
