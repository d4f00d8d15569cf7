-- ===== src/Relay/Quota/Log.antt =====
-- sail/relay/quota.go: what each operation adds to the log, and what the log read back says.
use Prim.Native.String.{String}
use text.Mathlib.TextEquality.{eq_iff}
use sailnet.Common.{ℕ, ◌≤◌, ◌<◌, ◌≡◌, refl, arith}
use sailnet.Common.{List, [], ◌∷◌, ◌++◌, true, false, Option, none, some}
use sailnet.Common.{lookup, insert, lookup-insert, add64, word}
use sailnet.Relay.Quota.{WalLine, credit_line, consume_line, Quota, at, text_at, is_some}
use sailnet.Relay.Quota.{
  replay_line, no_quota, replay, new_quota, log_line, owner_field, credit, add,
}
use sailnet.Relay.Quota.{consume}

replay-append : (q : Quota) (ls ms : List WalLine) → replay q (ls ++ ms) ≡ replay (replay q ls) ms
unfolding replay
replay-append q [] ms = refl
replay-append q (l ∷ ls) ms = replay-append (replay_line q l) ls ms

replay-snoc :
    (q : Quota) (ls : List WalLine) (l : WalLine)
    → replay q (ls ++ (l ∷ [])) ≡ replay_line (replay q ls) l
unfolding replay
replay-snoc q ls l = replay-append q ls (l ∷ [])

-- What the log `r`, read back, and the live quota `q` say of the hashed tag `k`: the same credit and
-- owner, and a consumption that lags by the bytes that are pending, less than a MiB.
pub record Agrees (r q : Quota) (k : String) : Type 0 where
  pub same_known : is_some (lookup k r.credit) ≡ is_some (lookup k q.credit)
  pub same_credit : at k r.credit ≡ at k q.credit
  pub same_owner : text_at k r.owner ≡ text_at k q.owner
  pub lag : add64 (at k r.consumed) (at k q.pending) ≡ at k q.consumed
  pub lag_bound : at k q.pending < 1048576
  pub credit_word : at k q.credit < word
  pub used_word : at k r.consumed < word
  pub unowned : is_some (lookup k q.credit) ≡ false → text_at k q.owner ≡ ""

-- One operation of the quota, on the hashed tag.
pub data Op : Type 0 where
  do_credit : String → ℕ → String → Op
  do_add : String → ℕ → Op
  do_consume : String → ℕ → Op

-- The byte counts of the operations are not negative, and no larger than what a rate can buy.
abbrev pub InRange : Op → Type 0
InRange (do_credit t n o) = n ≤ 4611686018427387904
InRange (do_add t n) = n ≤ 4611686018427387904
InRange (do_consume t n) = n ≤ 4611686018427387904

module _ (key : String → String) where
  unfoldable pub run : Quota → Op → Quota
  run q (do_credit t n o) = (credit key q t n o).0
  run q (do_add t n) = (add key q t n).0
  run q (do_consume t n) = (consume key q t n).0

-- The log of a quota, and the quota that a relay restarted from it starts with.
abbrev pub log_of : Quota → List WalLine
log_of q = elim q.wal [ none ↦ [] | some w ↦ w ]

abbrev pub restart : Quota → Quota
restart q = new_quota (some (log_of q)) q.min_rate

abbrev pub recovered : Quota → Quota
recovered q = replay (no_quota q.min_rate) (log_of q)

pub recovered-log_line :
    (q : Quota) (l : WalLine)
    → is_some q.wal ≡ true
    → recovered (log_line q l) ≡ replay_line (recovered q) l
unfolding log_line
recovered-log_line q l h = go q.wal refl
  where
    go :
        (o : Option (List WalLine))
        → q.wal ≡ o
        → recovered (log_line q l) ≡ replay_line (recovered q) l
    go none e = absurd (ground arith)
    go (some w) e = ground (arith, replay-snoc (no_quota q.min_rate) w l)

pub log_line-fields :
    (q : Quota) (l : WalLine)
    → ((log_line q l).credit ≡ q.credit)
      × ((log_line q l).consumed ≡ q.consumed)
      × ((log_line q l).owner ≡ q.owner)
      × ((log_line q l).pending ≡ q.pending)
      × (is_some (log_line q l).wal ≡ is_some q.wal)
unfolding log_line
log_line-fields q l = ground arith

abbrev pub AllAgree : Quota → Type 0
AllAgree q = (k : String) → Agrees (recovered q) q k

module _ (key : String → String) where
  pub credit-Agrees :
      (q : Quota) (t : String) (n : ℕ) (o k : String)
      → is_some q.wal ≡ true
      → n ≤ 4611686018427387904
      → AllAgree q
      → Agrees (recovered (credit key q t n o).0) (credit key q t n o).0 k
  unfolding credit replay_line
  credit-Agrees q t n o k e h v =
      let q' = record q { credit = insert (key t) n q.credit; owner = insert (key t) o q.owner } in
      let l = credit_line (key t) n (owner_field o) in
      ground (
        arith,
        recovered-log_line q' l e,
        log_line-fields q' l,
        v (key t),
        v k,
        lookup-insert (key t) k n q.credit,
        lookup-insert (key t) k o q.owner,
        lookup-insert (key t) k (add64 (at (key t) (recovered q).credit) n) (recovered q).credit,
        lookup-insert (key t) k o (recovered q).owner,
        eq_iff (key t) k,
        eq_iff o "",
        (v k).unowned,
        (v (key t)).unowned,
      )

  pub add-Agrees :
      (q : Quota) (t : String) (n : ℕ) (k : String)
      → is_some q.wal ≡ true
      → n ≤ 4611686018427387904
      → AllAgree q
      → Agrees (recovered (add key q t n).0) (add key q t n).0 k
  unfolding add replay_line
  add-Agrees q t n k e h v =
      let c = add64 (at (key t) q.credit) n in
      let q' = record q { credit = insert (key t) c q.credit } in
      let o = text_at (key t) q.owner in
      let l = credit_line (key t) n (owner_field o) in
      ground (
        arith,
        recovered-log_line q' l e,
        log_line-fields q' l,
        v (key t),
        v k,
        lookup-insert (key t) k c q.credit,
        lookup-insert (key t) k (add64 (at (key t) (recovered q).credit) n) (recovered q).credit,
        lookup-insert (key t) k o (recovered q).owner,
        eq_iff (key t) k,
        eq_iff o "",
        (v k).unowned,
      )

  pub consume-Agrees :
      (q : Quota) (t : String) (n : ℕ) (k : String)
      → is_some q.wal ≡ true
      → n ≤ 4611686018427387904
      → AllAgree q
      → Agrees (recovered (consume key q t n).0) (consume key q t n).0 k
  unfolding consume replay_line
  consume-Agrees q t n k e h v =
      let c = add64 (at (key t) q.consumed) n in
      let p = add64 (at (key t) q.pending) n in
      let q' = record q { consumed = insert (key t) c q.consumed } in
      let l = consume_line (key t) p in
      ground (
        arith,
        recovered-log_line q' l e,
        log_line-fields q' l,
        v (key t),
        v k,
        lookup-insert (key t) k c q.consumed,
        lookup-insert (key t) k p q.pending,
        lookup-insert (key t) k 0 q.pending,
        lookup-insert (key t) k (add64 (at (key t) (recovered q).consumed) p)
            (recovered q).consumed,
        eq_iff (key t) k,
        (v k).unowned,
      )
