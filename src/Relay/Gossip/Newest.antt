-- ===== src/Relay/Gossip/Newest.antt =====
-- sail/relay/gossip.go: a record in the table is never replaced by an older one.
use Prim.Native.String.{String}
use text.Mathlib.Text.{◌==◌ as str_eq}
use text.Mathlib.TextEquality.{eq_iff}
use sailnet.Common.{ℕ, ◌≡◌, arith, List, [], ◌∷◌, Bool, false, not, ◌||◌}
use sailnet.Common.{if_cases, some, lookup, Bool-cases, inl, inr, signed_lt, lookup-insert, map}
use sailnet.Common.{false}
use sailnet.Relay.Gossip.{
  SignedRecord, RelayInfo, Crypto, is_new, verify_record, Table, store, is_inner, add_gossip,
}
use sailnet.Relay.Gossip.Table.{adds, run, step, Verdict-cases}

module _ (c : Crypto) where
  -- The record of an account in a table, which is not of an earlier time than `t0`.
  abbrev pub HasSince : String → ℕ → Table → Type 0
  HasSince acct t0 t = (r : SignedRecord) × (lookup acct t ≡ some r) × (signed_lt r.time t0 ≡ false)

  store-HasSince :
      (acct : String) (t0 : ℕ) (rec : SignedRecord) (ri : RelayInfo) (t : Table)
      → HasSince acct t0 t
      → HasSince acct t0 (store rec ri t).0
  unfolding store is_new
  store-HasSince acct t0 rec ri t (r, e, h) =
      if_cases (λ (s : Table × Bool). HasSince acct t0 s.0)
        (not (is_new rec t) || is_inner ri.desc.ip) (λ refuses. (r, e, h))
        (λ accepts.
          let found = lookup-insert rec.account acct rec t in
          elim (Bool-cases (str_eq rec.account acct)) [
            | inl same ↦
                let k : rec.account ≡ acct = ground (arith, same, eq_iff rec.account acct) in
                let e' : lookup rec.account t ≡ some r = rw k e in
                (rec, ground (arith, found, same), ground (arith, accepts, e', h))
            | inr other ↦ (r, ground (arith, found, other, e), h)
          ])

  run-HasSince :
      (acct : String) (t0 : ℕ) (rs : List (ℕ × SignedRecord)) (t : Table)
      → HasSince acct t0 t
      → HasSince acct t0 (run c t (map (λ r. adds r.0 r.1) rs))
  unfolding run step add_gossip
  run-HasSince acct t0 [] t h = h
  run-HasSince acct t0 ((now, rec) ∷ rs) t h =
      run-HasSince acct t0 rs (add_gossip c now rec t).0
        (elim (Verdict-cases (verify_record c now rec)) [
          | inl (e, v) ↦ rw (add_gossip, v) h
          | inr (ri, v) ↦ rw (add_gossip, v) (store-HasSince acct t0 rec ri t h)
        ])

  -- However many records are offered afterwards, by whomever, the record of an account is never replaced
  -- by an older one: the account keeps a record, and its time is not before that of the first.
  pub newest_stays :
      (acct : String) (old : SignedRecord) (rs : List (ℕ × SignedRecord)) (t : Table)
      → lookup acct t ≡ some old
      → (r : SignedRecord) × (lookup acct (run c t (map (λ r. adds r.0 r.1) rs)) ≡ some r)
        × (signed_lt r.time old.time ≡ false)
  newest_stays acct old rs t e = run-HasSince acct old.time rs t (old, e, ground arith)
