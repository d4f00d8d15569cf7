-- ===== src/Nano/Account/Offline.antt =====
-- sail/nano/block.go: a payment while no Nano node answers, and the loop that pockets receivables.
use Prim.Native.String.{String}
use sailnet.Common.{ℕ, ◌+◌, ◌-◌, ◌≤◌, ◌<◌, ◌≡◌, ◌↔◌, refl, arith, Bytes, List, [], ◌∷◌, inl, inr}
use sailnet.Common.{true, false, Option, none, some, Option-cases, length}
use sailnet.Nano.State.{ChainState, View, get}
use sailnet.Nano.Account.{
  Block, Failure, Sent, Error, Node, Crypto, Account, Cache, published, unpublished, failed,
}
use sailnet.Nano.Account.{
  hash, frontier, work, publish, sign_and_publish, new_block, spend, neutral, with_frontier,
}
use sailnet.Nano.Account.{
  send_a_block, receive, tally, receive_loop, send_block, send_threshold, unreachable, two_128,
}
use sailnet.Nano.Account.Publish.{sent_of}

module _ (c : Crypto) (a : Account) where
  publish_transport :
      (n : Node) (s : Cache) (now : ℕ) (b : Block) (h : Bytes)
      → ((d : Block) (e : Failure) → n.process d send_block ≡ some e → e.semantic ≡ false)
      → sent_of (publish c a n s now b h send_block).1 ≡ some (h, b)
  unfolding sent_of publish
  publish_transport n s now b h t = go (n.process b send_block) refl
    where
      go :
          (o : Option Failure)
          → n.process b send_block ≡ o
          → sent_of (publish c a n s now b h send_block).1 ≡ some (h, b)
      go none e = ground (arith, e)
      go (some x) e = ground (arith, e, t b x e)

  -- While no Nano node answers: an opened account whose cache holds the amount, with a balance of at
  -- most 128 bits, a well-formed address on both sides and work for its frontier, does hand out a
  -- block that takes `amount` off the balance for the address, follows the frontier, and carries the
  -- account's signature of its hash and that work, whether or not it could be published, unless a node
  -- understood the block and rejected it.
  pub pay_offline :
      (n : Node) (s : ChainState) (now : ℕ) (f pk l : Bytes) (w to : String) (amount : ℕ)
      → n.info ≡ unreachable
      → s.frontier ≡ some f
      → s.opened ≡ true
      → amount ≤ s.balance
      → s.balance < two_128
      → c.pubkey_of a.address ≡ some pk
      → c.pubkey_of to ≡ some l
      → work c a n f send_threshold ≡ some w
      → ((d : Block) (e : Failure) → n.process d send_block ≡ some e → e.semantic ≡ false)
      → (h : Bytes) × (b : Block) × (sent_of (send_a_block c a n (some s) now to amount).1
          ≡ some (h, b))
        × (b.link ≡ l)
        × (b.balance ≡ s.balance - amount)
        × (b.previous ≡ f)
        × (hash c b ≡ some h)
        × (b.signature ≡ c.sign h)
        × (b.work ≡ w)
  unfolding sent_of send_a_block with_frontier frontier get spend sign_and_publish hash
  pay_offline n s now f pk l w to amount hn hf ho ha hb hk hl hw t =
      let v : View = record {
        previous = f;
        balance = s.balance;
        representative = s.rep;
        opened = s.opened;
      } in
      let d = new_block c a v (neutral c a v.representative) (v.balance - amount) l in
      elim (Option-cases (hash c d)) [
        | inl e ↦ absurd (ground (arith, e, hk))
        | inr (h, e) ↦
            let b : Block = record d { signature = c.sign h; work = w } in
            (
              h,
              b,
              ground (arith, hn, hf, ho, hl, hk, hw, e, publish_transport n (some s) now b h t),
              refl,
              refl,
              refl,
              e,
              refl,
              refl,
            )
      ]

  tally_counts :
      (x : Sent) (got : ℕ) (e : Option Error)
      → (got ≤ (tally c a x (got, e)).0)
        × ((tally c a x (got, e)).0 ≤ got + 1)
        × (((tally c a x (got, e)).1 ≡ none) ↔ ((e ≡ none) × ((tally c a x (got, e)).0 ≡ got + 1)))
  unfolding tally
  tally_counts (published h b) got e = ground arith
  tally_counts (unpublished h b) got none = ground arith
  tally_counts (unpublished h b) got (some y) = ground arith
  tally_counts (failed y) got none = ground arith
  tally_counts (failed y) got (some z) = ground arith

  -- For every list of receivables, whatever the client answers at each: every one is tried, so with
  -- `got` received before, the count ends between `got` and `got` plus their number, and no error is
  -- reported exactly when there was none before and every one of them was received.
  pub receive_loop_counts :
      (rs : List (Node × Option Bytes × ℕ)) (s : Cache) (now got : ℕ) (e : Option Error)
      → (got ≤ (receive_loop c a rs s now (got, e)).1.0)
        × ((receive_loop c a rs s now (got, e)).1.0 ≤ got + length rs)
        × (((receive_loop c a rs s now (got, e)).1.1 ≡ none)
            ↔ ((e ≡ none) × ((receive_loop c a rs s now (got, e)).1.0 ≡ got + length rs)))
  unfolding receive_loop
  receive_loop_counts [] s now got e = ground arith
  receive_loop_counts ((n, h, amount) ∷ rs) s now got e =
      let x = receive c a n s now h amount in
      let t = tally c a x.1 (got, e) in
      let (lo, hi, same) = tally_counts x.1 got e in
      let (lo', hi', same') = receive_loop_counts rs x.0 now t.0 t.1 in
      (
        omega (arith, lo, lo'),
        omega (arith, hi, hi'),
        (
          λ q. let (q1, q2) = same'.0 q in let (q3, q4) = same.0 q1 in (q3, omega (arith, q2, q4)),
          λ q. same'.1 (same.1 (q.0, omega (arith, q.1, hi, hi')), omega (arith, q.1, hi, hi')),
        ),
      )
