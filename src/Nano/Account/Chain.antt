-- ===== src/Nano/Account/Chain.antt =====
-- sail/nano/block.go: payments of one account, one after the other.
use Prim.Native.String.{String}
use sailnet.Common.{ℕ, ◌+◌, ◌≡◌, refl, arith, Bytes, List, [], ◌∷◌, inl, inr}
use sailnet.Common.{true, false, Option, none, some, Option-cases}
use sailnet.Nano.State.{ChainState, View, get, set, record_state}
use sailnet.Nano.Account.{Block, Node, Crypto, Account, Cache}
use sailnet.Nano.Account.{frontier, after}
use sailnet.Nano.Account.{send_a_block, tagged_rep, unreachable}
use sailnet.Nano.Account.Publish.{sent_of}
use sailnet.Nano.Account.Payment.{send_a_block_sound}

module _ (c : Crypto) (a : Account) where
  -- Payments while no node answers, each with the client's state at its time.
  pub send_all : List (Node × String × ℕ) → Cache → ℕ → Cache × List (ℕ × Bytes × Block)
  send_all [] s now = (s, [])
  send_all ((n, to, amount) ∷ ps) s now =
      let r = send_a_block c a n s now to amount in
      let rest = send_all ps r.0 now in
      (rest.0, elim (sent_of r.1) [ none ↦ rest.1 | some x ↦ (amount, x.0, x.1) ∷ rest.1 ])

  module _ (n : Node) (to : String) (amount : ℕ) (ps : List (Node × String × ℕ)) (s : Cache)
      (now : ℕ) where
    send_all-none :
        sent_of (send_a_block c a n s now to amount).1 ≡ none
        → send_all ((n, to, amount) ∷ ps) s now
          ≡ send_all ps (send_a_block c a n s now to amount).0 now
    unfolding send_all
    send_all-none e = ground (arith, e)

    send_all-some :
        (h : Bytes) (b : Block)
        → sent_of (send_a_block c a n s now to amount).1 ≡ some (h, b)
        → send_all ((n, to, amount) ∷ ps) s now ≡ (
          (send_all ps (send_a_block c a n s now to amount).0 now).0,
          (amount, h, b) ∷ (send_all ps (send_a_block c a n s now to amount).0 now).1,
        )
    unfolding send_all
    send_all-some h b e = ground (arith, e)

  abbrev pub Unreached : List (Node × String × ℕ) → Type 0
  Unreached [] = Unit
  Unreached (p ∷ ps) = (p.0.info ≡ unreachable) × Unreached ps

  -- A chain of blocks from one frontier and balance to another: each follows the one before it and
  -- takes its amount off.
  abbrev pub Chain : Bytes → ℕ → List (ℕ × Bytes × Block) → Option View → Type 0
  Chain f n [] last = (v : View) × (last ≡ some v) × (v.previous ≡ f) × (v.balance ≡ n)
  Chain f n ((amount, h, b) ∷ r) last =
      (b.previous ≡ f) × (b.balance + amount ≡ n) × Chain h b.balance r last

  get_cached :
      (s : ChainState) (f : Bytes)
      → s.frontier ≡ some f
      → get (some s)
        ≡ some (record {
          previous = f;
          balance = s.balance;
          representative = s.rep;
          opened = s.opened;
        })
  unfolding get
  get_cached s f hs = ground (arith, hs)

  offline_frontier :
      (n : Node) (s : ChainState) (f : Bytes) (now : ℕ)
      → n.info ≡ unreachable
      → s.frontier ≡ some f
      → (v : View) × ((frontier c a n (some s) now).1.0 ≡ some v)
        × ((frontier c a n (some s) now).0 ≡ some s)
        × (v.previous ≡ f)
        × (v.balance ≡ s.balance)
        × (v.opened ≡ s.opened)
  unfolding frontier get
  offline_frontier n s f now hn hs = (
    record { previous = f; balance = s.balance; representative = s.rep; opened = s.opened },
    ground (arith, hn, hs),
    ground (arith, hn, hs),
    refl,
    refl,
    refl,
  )

  -- While no Nano node answers, for every cached frontier and every list of payments, whatever each
  -- of them returns: the blocks handed out form one chain. The first follows the cached frontier, each
  -- next one follows the hash of the one before it (no two blocks compete for a place), each takes its
  -- amount off the balance, and the cache ends at the hash and the balance of the last. The account's
  -- own key reads as no operation.
  pub offline-Chain :
      (ps : List (Node × String × ℕ)) (s : ChainState) (f : Bytes) (now : ℕ)
      → tagged_rep a.public ≡ false
      → s.frontier ≡ some f
      → Unreached ps
      → Chain f s.balance (send_all ps (some s) now).1 (get (send_all ps (some s) now).0)
  unfolding set record_state send_all
  offline-Chain [] s f now pk hs u = (
    record { previous = f; balance = s.balance; representative = s.rep; opened = s.opened },
    get_cached s f hs,
    refl,
    refl,
  )
  offline-Chain ((n, to, amount) ∷ ps) s f now pk hs (hn, u) =
      let (v, hv, h0, hp, hb, _) = offline_frontier n s f now hn hs in
      let (out, keeps) = send_a_block_sound c a n (some s) now to amount pk in
      elim (Option-cases (sent_of (send_a_block c a n (some s) now to amount).1)) [
        | inl e ↦
            rw (send_all-none n to amount ps (some s) now e, keeps e, h0)
              (offline-Chain ps s f now pk hs u)
        | inr ((h, b), e) ↦
            let (w, hw, p, _) = out h b e in
            let s' = record_state s (after c a h b) 0 true now in
            let moved : (send_a_block c a n (some s) now to amount).0 ≡ some s' =
              ground (arith, p.recorded, h0) in
            rw (send_all-some n to amount ps (some s) now h b e, moved)
              (
                ground (arith, hv, hw, hp, p.follows),
                ground (arith, hv, hw, hb, p.spent),
                offline-Chain ps s' h now pk refl u,
              )
      ]
