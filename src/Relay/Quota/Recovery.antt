-- ===== src/Relay/Quota/Recovery.antt =====
-- sail/relay/quota.go: what a relay that restarts from its log knows.
use Prim.Native.String.{String}
use text.Mathlib.Text.{◌==◌ as str_eq}
use text.Mathlib.TextEquality.{eq_iff}
use sailnet.Common.{ℕ, ◌<◌, ◌≡◌, refl, ◌∙◌, arith}
use sailnet.Common.{List, [], ◌∷◌, true, if◌then◌else◌, Bool-cases, inl, inr, none, some}
use sailnet.Common.{DistinctKeys, insert-DistinctKeys, lookup, lookup-insert, add64, positive, word}
use sailnet.Relay.Quota.{consume_line, Quota, at, is_some}
use sailnet.Relay.Quota.{replay_line, new_quota, log_line, credit, add}
use sailnet.Relay.Quota.{consume, flush_loop, flush}
use sailnet.Relay.Quota.Log.{
  Agrees, Op, do_credit, do_add, do_consume, InRange, run, restart, recovered,
}
use sailnet.Relay.Quota.Log.{
  recovered-log_line, log_line-fields, AllAgree, credit-Agrees, add-Agrees, consume-Agrees,
}

abbrev pub run_all : (String → String) → Quota → List Op → Quota
run_all key q [] = q
run_all key q (o ∷ os) = run_all key (run key q o) os

abbrev pub AllInRange : List Op → Type 0
AllInRange [] = Unit
AllInRange (o ∷ os) = InRange o × AllInRange os

-- What holds of a quota with a log, between two operations.
pub record IsLogged (q : Quota) : Type 0 where
  pub logged : is_some q.wal ≡ true
  pub agree : AllAgree q
  pub distinct : DistinctKeys q.pending

module _ (key : String → String) where
  run-IsLogged : (q : Quota) (o : Op) → InRange o → IsLogged q → IsLogged (run key q o)
  unfolding run
  run-IsLogged q (do_credit t n o) h v = record {
    logged = unfold credit log_line in ground (arith, v.logged);
    agree = λ k. credit-Agrees key q t n o k v.logged h v.agree;
    distinct = unfold credit log_line in ground (arith, v.distinct);
  }
  run-IsLogged q (do_add t n) h v = record {
    logged = unfold add log_line in ground (arith, v.logged);
    agree = λ k. add-Agrees key q t n k v.logged h v.agree;
    distinct = unfold add log_line in ground (arith, v.distinct);
  }
  run-IsLogged q (do_consume t n) h v = record {
    logged = unfold consume log_line in ground (arith, v.logged);
    agree = λ k. consume-Agrees key q t n k v.logged h v.agree;
    distinct =
        let p = add64 (at (key t) q.pending) n in
        unfold consume log_line in
        ground (
          arith,
          insert-DistinctKeys (key t) p q.pending v.distinct,
          insert-DistinctKeys (key t) 0 q.pending v.distinct,
        );
  }

  run_all-IsLogged :
      (q : Quota) (os : List Op) → AllInRange os → IsLogged q → IsLogged (run_all key q os)
  run_all-IsLogged q [] h v = v
  run_all-IsLogged q (o ∷ os) h v = run_all-IsLogged (run key q o) os h.1 (run-IsLogged q o h.0 v)

  new-IsLogged : (rate : ℕ) → IsLogged (new_quota (some []) rate)
  unfolding new_quota lookup
  new-IsLogged rate = record { logged = refl; agree = λ k. ground arith; distinct = tt }

  -- A relay that stops at any moment and restarts from its log knows of every tag what it knew: the
  -- same credit and the same owner. Of the bytes used it has lost less than a MiB: the bytes that were
  -- pending. The log started empty, and the byte counts are between 0 and 2 ^ 62.
  pub restart-Agrees :
      (rate : ℕ) (os : List Op)
      → AllInRange os
      → let q = run_all key (new_quota (some []) rate) os in (k : String) → Agrees (restart q) q k
  unfolding new_quota
  restart-Agrees rate os h k =
      let q = run_all key (new_quota (some []) rate) os in
      let a = (run_all-IsLogged (new_quota (some []) rate) os h (new-IsLogged rate)).agree k in
      record {
        same_known = a.same_known;
        same_credit = a.same_credit;
        same_owner = a.same_owner;
        lag = a.lag;
        lag_bound = a.lag_bound;
        credit_word = a.credit_word;
        used_word = a.used_word;
        unowned = a.unowned;
      }

small_tail :
    (j : String) (n : ℕ) (p : List (String × ℕ)) (i : String)
    → lookup j p ≡ none
    → at i ((j, n) ∷ p) < 1048576
    → at i p < 1048576
unfolding lookup
small_tail j n p i fresh h = ground (arith, eq_iff j i)

small_head : (j : String) (n : ℕ) (p : List (String × ℕ)) → at j ((j, n) ∷ p) ≡ n
unfolding lookup
small_head j n p = ground (arith, eq_iff j j)

-- One pending count is written.
consume_line-recovered :
    (q : Quota) (j k : String) (n : ℕ)
    → is_some q.wal ≡ true
    → at k (recovered (log_line q (consume_line j n))).consumed
      ≡ (if str_eq j k then add64 (at k (recovered q).consumed) n else at k (recovered q).consumed)
unfolding replay_line
consume_line-recovered q j k n e = ground (
  arith,
  recovered-log_line q (consume_line j n) e,
  lookup-insert j k (add64 (at j (recovered q).consumed) n) (recovered q).consumed,
  eq_iff j k,
)

flush_loop-recovered :
    (p : List (String × ℕ)) (q : Quota) (k : String)
    → is_some q.wal ≡ true
    → DistinctKeys p
    → ((j : String) → at j p < 1048576)
    → at k (recovered q).consumed < word
    → at k (recovered (flush_loop p q)).consumed ≡ add64 (at k (recovered q).consumed) (at k p)
unfolding flush_loop lookup
flush_loop-recovered [] q k e d small w = ground arith
flush_loop-recovered ((j, n) ∷ p) q k e (fresh, d) small w =
    let tail_small = λ (i : String). small_tail j n p i fresh (small i) in
    let q' = log_line q (consume_line j n) in
    let n_small = small j in
    elim (Bool-cases (positive n)) [
      | inl more ↦ rw more (
          ground (
            arith,
            flush_loop-recovered p q' k (ground (arith, log_line-fields q (consume_line j n))) d
                tail_small,
            consume_line-recovered q j k n e,
            eq_iff j k,
            small_head j n p,
            fresh,
          ))
      | inr zero_bytes ↦ rw zero_bytes (
          ground (
            arith,
            flush_loop-recovered p q k e d tail_small w,
            eq_iff j k,
            small_head j n p,
            n_small,
            fresh,
          ))
    ]

-- After `Flush`, the log says exactly what the live quota knows: restarted from it, every tag has the
-- consumption that it had.
pub flush_exact :
    (key : String → String) (rate : ℕ) (os : List Op)
    → AllInRange os
    → let q = run_all key (new_quota (some []) rate) os in
      (k : String) → at k (restart (flush q)).consumed ≡ at k q.consumed
unfolding new_quota flush
flush_exact key rate os h k =
    let q = run_all key (new_quota (some []) rate) os in
    let v = run_all-IsLogged key (new_quota (some []) rate) os h (new-IsLogged key rate) in
    flush_loop-recovered q.pending q k v.logged v.distinct (λ j. (v.agree j).lag_bound)
      (v.agree k).used_word
    ∙ (v.agree k).lag
