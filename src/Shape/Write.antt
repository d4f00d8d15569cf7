-- ===== src/Shape/Write.antt =====
-- sail/shape/write.go: cutting a stream of cells into TLS records. A connection is given by its sizes on
-- the wire and by whether it takes the next chunk, which may depend on all it took before. The padding
-- cells and the sampled prefix are parameters; the pauses of the front window are not modelled.
pub mod Drain
pub mod Kept
use sailnet.Common.{
  ℕ, zero, suc, ◌+◌, ◌-◌, ◌*◌, List, [], ◌∷◌, ◌++◌, Bool, true, false, ◌&&◌, ◌||◌, not,
}
use sailnet.Common.{ltb, leb, ◌==◌, if◌then◌else◌, length, take, drop, Bytes}

pub record Params : Type 0 where
  pub front_k : ℕ
  pub front_budget : ℕ
  pub max_record : ℕ
  pub min_record : ℕ

-- `front` holds the sizes from `fi` on. A budget below zero reads as 0: the code only asks whether it
-- is positive.
pub record Shaper : Type 0 where
  pub params : Params
  pub front : List ℕ
  pub budget : ℕ
  pub queue : Bytes
  pub padding : ℕ
  pub data_sent : ℕ

-- The other end of the connection: `out` is what it took so far.
pub record ChunkWriter : Type 0 where
  pub wire_size : ℕ → ℕ
  pub takes : List Bytes → Bytes → Bool

-- `NewShaper`, with the prefix that the profile gave (none without a profile).
pub new_shaper : Params → List ℕ → Shaper
unfolding take
new_shaper p prefix = record {
  params = p;
  front = take p.front_k prefix;
  budget = p.front_budget;
  queue = [];
  padding = 0;
  data_sent = 0;
}

-- A shaper, what the connection has taken, and whether the last write failed.
pub record Progress : Type 0 where
  pub shaper : Shaper
  pub out : List Bytes
  pub failed : Bool

module _ (w : ChunkWriter) where
  unfoldable pub record_limit : Params → ℕ
  record_limit p =
      let m =
        if (p.max_record == 0)
        then 16384
        else (if ltb 16384 p.max_record then 16384 else p.max_record) in
      m + m + 22 - w.wire_size m

  pub cut : Params → ℕ → ℕ
  unfolding record_limit
  cut p avail = if leb avail (record_limit p) then avail else record_limit p

  -- One `WriteChunk` of the first `n` bytes of the queue.
  pub send_chunk : ℕ → Shaper → List Bytes → Progress
  unfolding take drop
  send_chunk n s out =
      if w.takes out (take n s.queue)
      then record {
        shaper = record s { queue = drop n s.queue };
        out = out ++ (take n s.queue ∷ []);
        failed = false;
      }
      else record { shaper = s; out = out; failed = true }

  -- The loop of `drain`, on fuel: each round takes a byte off the queue at least.
  pub drain_loop : ℕ → Bool → Shaper → List Bytes → Progress
  unfolding cut send_chunk
  drain_loop zero hold s out = record { shaper = s; out = out; failed = false }
  drain_loop (suc fuel) hold s out =
      let n = cut s.params (length s.queue) in
      let p = send_chunk n s out in
      let rest = drain_loop fuel hold p.shaper p.out in
      if length s.queue == 0
      then record { shaper = s; out = out; failed = false }
      else (if p.failed
            || (hold && ltb n (length s.queue) && ltb (length s.queue - n) s.params.min_record)
          then p
          else rest)

  pub drain : Bool → Shaper → List Bytes → Progress
  unfolding drain_loop
  drain hold s out = drain_loop (length s.queue) hold s out

  unfoldable pub flush : Shaper → List Bytes → Progress
  unfolding drain
  flush s out = drain false s out

  module _ (pad : ℕ → Bytes) where
    -- The inner loop of the front window, on fuel: `false` when the budget is spent. The padding cells
    -- are numbered by the bytes of padding spent.
    pub fill : ℕ → ℕ → Shaper → Shaper × Bool
    fill zero chunk s = (s, leb chunk (length s.queue))
    fill (suc fuel) chunk s =
        let cell = pad s.padding in
        let rest = fill fuel chunk (record s {
          budget = s.budget - length cell;
          padding = s.padding + length cell;
          queue = s.queue ++ cell;
        }) in
        if leb chunk (length s.queue)
        then (s, true)
        else (if s.budget == 0 then (s, false) else rest)

    -- The loop of the front window over its record sizes.
    pub front_loop : List ℕ → Shaper → List Bytes → Progress
    unfolding fill send_chunk drain
    front_loop [] s out = drain true (record s { front = [] }) out
    front_loop (want ∷ r) s out =
        let chunk = want - w.wire_size 0 in
        let f = fill s.budget chunk s in
        let p = send_chunk chunk f.0 out in
        let skipped = front_loop r s out in
        let next = front_loop r p.shaper p.out in
        if chunk == 0
        then skipped
        else (if f.1
            then (if p.failed
                then record p { shaper = record p.shaper { front = want ∷ r } }
                else next)
            else drain true (record f.0 { front = [] }) out)

    pub write : Shaper → Bytes → List Bytes → Progress
    unfolding front_loop
    write s payload out =
        front_loop s.front
          (record s { data_sent = s.data_sent + length payload; queue = s.queue ++ payload }) out
