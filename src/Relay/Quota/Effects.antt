-- ===== src/Relay/Quota/Effects.antt =====
-- sail/relay/quota.go: what an operation leaves in the entries of one hashed tag.
use Prim.Native.String.{String}
use text.Mathlib.TextEquality.{eq_iff}
use sailnet.Common.{ℕ, ◌<◌, ◌≡◌, ◌≢◌, arith, true, some, lookup, lookup-insert}
use sailnet.Common.{if◌then◌else◌, add64, sub64, word}
use sailnet.Relay.Quota.{Quota, at, log_line, credit, add, consume, remaining, known}

module _ (key : String → String) (q : Quota) (tag : String) where
  pub lookup-credit :
      (k : String) (n : ℕ) (owner : String)
      → key tag ≢ k
      → lookup k (credit key q tag n owner).0.credit ≡ lookup k q.credit
  unfolding credit log_line
  lookup-credit k n owner h =
      ground (arith, h, eq_iff (key tag) k, lookup-insert (key tag) k n q.credit)

  pub known-credit : (n : ℕ) (owner : String) → known key (credit key q tag n owner).0 tag ≡ true
  unfolding credit log_line known
  known-credit n owner =
      ground (arith, eq_iff (key tag) (key tag), lookup-insert (key tag) (key tag) n q.credit)

  pub credit_consumed :
      (n : ℕ) (owner : String) → (credit key q tag n owner).0.consumed ≡ q.consumed
  unfolding credit log_line
  credit_consumed n owner = ground arith

  -- The credit of a known tag after `Add`, an amount below zero included.
  pub lookup-add :
      (n : ℕ)
      → lookup (key tag) (add key q tag n).0.credit ≡ (
          if known key q tag
          then some (add64 (at (key tag) q.credit) n)
          else lookup (key tag) q.credit)
  unfolding add log_line known
  lookup-add n = ground (
    arith,
    eq_iff (key tag) (key tag),
    lookup-insert (key tag) (key tag) (add64 (at (key tag) q.credit) n) q.credit,
  )

  pub lookup-add_other :
      (k : String) (n : ℕ) → key tag ≢ k → lookup k (add key q tag n).0.credit ≡ lookup k q.credit
  unfolding add log_line
  lookup-add_other k n h = ground (
    arith,
    h,
    eq_iff (key tag) k,
    lookup-insert (key tag) k (add64 (at (key tag) q.credit) n) q.credit,
  )

  pub add_consumed : (n : ℕ) → (add key q tag n).0.consumed ≡ q.consumed
  unfolding add log_line
  add_consumed n = ground arith

  pub add_owner : (n : ℕ) → (add key q tag n).0.owner ≡ q.owner
  unfolding add log_line
  add_owner n = ground arith

  pub add-known : (n : ℕ) → (add key q tag n).2 ≡ known key q tag
  unfolding add known
  add-known n = ground arith

  pub consume_credit : (n : ℕ) → (consume key q tag n).0.credit ≡ q.credit
  unfolding consume log_line
  consume_credit n = ground arith

  -- Of a tag whose rest is consumed, nothing remains.
  pub remaining-consume :
      at (key tag) q.consumed < word
      → remaining key (consume key q tag (remaining key q tag)).0 tag ≡ 0
  unfolding remaining consume log_line
  remaining-consume l =
      let rest = sub64 (at (key tag) q.credit) (at (key tag) q.consumed) in
      ground (
        arith,
        l,
        eq_iff (key tag) (key tag),
        lookup-insert (key tag) (key tag) (add64 (at (key tag) q.consumed) rest) q.consumed,
      )
