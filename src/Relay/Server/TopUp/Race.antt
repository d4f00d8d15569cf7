-- ===== src/Relay/Server/TopUp/Race.antt =====
-- sail/relay/server.go: two requests that bring the same block. Each holds the quota's mutex only for
-- one call, so the calls of the two interleave.
use Prim.Native.String.{String}
use mathlib.Core.Option.{get_or}
use sailnet.Common.{ℕ, ◌<◌, ◌≡◌, ◌≢◌, sym, ap, ◌∙◌, arith, lookup, none, some, Bytes}
use sailnet.Common.{add64, sub64, word}
use sailnet.Relay.Quota.{Quota, at, credit, add, consume, remaining, known, owner_of}
use sailnet.Relay.Quota.Effects.{
  lookup-credit, lookup-add, lookup-add_other, consume_credit, add_owner,
}
use sailnet.Relay.Server.Payment.{Terms}
use sailnet.Relay.Server.TopUp.{Supplied, check_top_up, move_bytes}

module _ (key : String → String) where
  move_bytes-lookup :
      (tag hash : String) (p bytes x : ℕ) (q : Quota)
      → lookup (key tag) q.credit ≡ some x
      → lookup (key tag) (move_bytes key tag hash p bytes q).0.credit
        ≡ some (add64 x (sub64 bytes p))
  unfolding move_bytes known
  move_bytes-lookup tag hash p bytes x q e =
      let c = (consume key q hash bytes).0 in
      let here : lookup (key tag) c.credit ≡ some x =
        ap (lookup (key tag)) (consume_credit key q hash bytes) ∙ e in
      ground (arith, here, lookup-add key c tag (sub64 bytes p))

  -- The check of a block sees neither the provisional credit of another request nor its own.
  check_top_up-add :
      (t : Terms) (public : Bytes) (tag : String) (p : ℕ) (b : Supplied) (q : Quota)
      → key b.hash ≢ key tag
      → check_top_up key t public tag (some b) (add key q tag p).0
        ≡ check_top_up key t public tag (some b) q
  unfolding check_top_up known owner_of
  check_top_up-add t public tag p b q d =
      ground
        (arith, add_owner key q tag p, lookup-add_other key q tag (key b.hash) p (λ e. d (sym e)))

  -- When two requests bring the same block before the ledger has confirmed it, with the provisional
  -- credits `p` and `r`, both pass the check; and when both read what is left of the block before
  -- either moves it, the circuit gets it twice.
  pub top_up_race :
      (t : Terms) (public : Bytes) (tag owner : String) (p r x n : ℕ) (b : Supplied) (q : Quota)
      → key b.hash ≢ key tag
      → lookup (key tag) q.credit ≡ some x
      → x < word
      → p < word
      → r < word
      → check_top_up key t public tag (some b) q ≡ none
      → let both = (add key (add key q tag p).0 tag r).0 in
        let paid = (credit key both b.hash n owner).0 in
        let bytes = remaining key paid b.hash in
        let one = (move_bytes key tag b.hash p bytes paid).0 in
        (check_top_up key t public tag (some b) (add key q tag p).0 ≡ none)
        × (at (key tag) (move_bytes key tag b.hash r bytes one).0.credit
            ≡ add64 (add64 x bytes) bytes)
  unfolding known
  top_up_race t public tag owner p r x n b q d e w v u c =
      let q1 = (add key q tag p).0 in
      let both = (add key q1 tag r).0 in
      let paid = (credit key both b.hash n owner).0 in
      let bytes = remaining key paid b.hash in
      let one = (move_bytes key tag b.hash p bytes paid).0 in
      let a : lookup (key tag) q1.credit ≡ some (add64 x p) =
        ground (arith, e, lookup-add key q tag p) in
      let z : lookup (key tag) both.credit ≡ some (add64 (add64 x p) r) =
        ground (arith, a, lookup-add key q1 tag r) in
      let y = lookup-credit key both b.hash (key tag) n owner d ∙ z in
      let f = move_bytes-lookup tag b.hash p bytes (add64 (add64 x p) r) paid y in
      let g = move_bytes-lookup tag b.hash r bytes _ one f in
      let sum : add64 (add64 (add64 (add64 x p) r) (sub64 bytes p)) (sub64 bytes r)
          ≡ add64 (add64 x bytes) bytes =
        omega (arith, w, v, u) in
      (check_top_up-add t public tag p b q d ∙ c, ap (λ o. get_or o 0) g ∙ sum)
