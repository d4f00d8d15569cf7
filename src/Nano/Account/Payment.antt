-- ===== src/Nano/Account/Payment.antt =====
-- sail/nano/block.go: what one payment hands out, and what it leaves.
use Prim.Native.String.{String}
use sailnet.Common.{ℕ, ◌+◌, ◌-◌, ◌≡◌, refl, arith, Bytes}
use sailnet.Common.{Bool, true, false, ltb, Option, none, some}
use sailnet.Nano.State.{View, set}
use sailnet.Nano.Account.{Block, Node, Crypto, Account, Cache}
use sailnet.Nano.Account.{frontier, after, new_block, spend, neutral, with_frontier}
use sailnet.Nano.Account.{send_a_block, tagged_rep, send_block, send_threshold}
use sailnet.Nano.Account.Publish.{sent_of, sign_and_publish_hands_out, sign_and_publish_keeps}

module _ (c : Crypto) (a : Account) where
  -- A payment of `amount` from the state `v`: it takes the amount off the balance and follows the
  -- frontier, and it is what the cache then says.
  pub record Pays (s s' : Cache) (now : ℕ) (v : View) (link : Option Bytes) (amount : ℕ)
      (rep h : Bytes) (b : Block) : Type 0 where
    pub was_opened : v.opened ≡ true
    pub spent : b.balance + amount ≡ v.balance
    pub follows : b.previous ≡ v.previous
    pub pays_link : link ≡ some b.link
    pub pays_rep : b.representative ≡ rep
    pub signed : b.signature ≡ c.sign h
    pub recorded : s' ≡ set s (after c a h b) now

  spend_hands_out :
      (n : Node) (s : Cache) (now : ℕ) (v : View) (link : Option Bytes) (amount : ℕ) (rep h : Bytes)
      (b : Block)
      → sent_of (spend c a n s now v link amount rep).1 ≡ some (h, b)
      → Pays s (spend c a n s now v link amount rep).0 now v link amount rep h b
  unfolding sent_of spend
  spend_hands_out n s now v none amount rep h b e = absurd (ground (arith, e))
  spend_hands_out n s now v (some l) amount rep h b e =
      go (v.opened) (ltb v.balance amount) refl refl
    where
      d : Block
      d = new_block c a v rep (v.balance - amount) l

      go :
          (o p : Bool)
          → v.opened ≡ o
          → ltb v.balance amount ≡ p
          → Pays s (spend c a n s now v (some l) amount rep).0 now v (some l) amount rep h b
      go false p q r = absurd (ground (arith, q))
      go true true q r = absurd (ground (arith, q, r))
      go true false q r =
          let f =
            sign_and_publish_hands_out c a n s now d send_block v.previous send_threshold h b
              (ground (arith, q, r)) in
          record {
            was_opened = q;
            spent = ground (arith, r, f.fits_balance);
            follows = f.fits_previous;
            pays_link = ground (arith, f.fits_link);
            pays_rep = f.fits_rep;
            signed = f.fits_signature;
            recorded = ground (arith, q, r, f.fits_cache);
          }

  spend_keeps :
      (n : Node) (s : Cache) (now : ℕ) (v : View) (link : Option Bytes) (amount : ℕ) (rep : Bytes)
      → sent_of (spend c a n s now v link amount rep).1 ≡ none
      → (spend c a n s now v link amount rep).0 ≡ s
  unfolding sent_of spend
  spend_keeps n s now v none amount rep e = ground arith
  spend_keeps n s now v (some l) amount rep e = ground (
    arith,
    sign_and_publish_keeps c a n s now (new_block c a v rep (v.balance - amount) l) send_block
        v.previous send_threshold,
  )

  neutral_untagged :
      (rep : Bytes) → tagged_rep a.public ≡ false → tagged_rep (neutral c a rep) ≡ false
  unfolding neutral
  neutral_untagged rep h = ground (arith, h)

  -- Whatever the client answers: a payment by `SendBlock` that hands out a block starts from the state
  -- that `frontier` gave, which is opened and holds the amount; the block takes exactly the amount off
  -- that balance, follows that frontier, goes to the account named, is signed by the key and, when the
  -- account's own key reads as no operation, carries no operation in its representative. The cache is
  -- that block. A payment that hands out no block leaves the cache that `frontier` left.
  pub send_a_block_sound :
      (n : Node) (s : Cache) (now : ℕ) (to : String) (amount : ℕ)
      → tagged_rep a.public ≡ false
      → ((h : Bytes) (b : Block)
          → sent_of (send_a_block c a n s now to amount).1 ≡ some (h, b)
          → (v : View) × ((frontier c a n s now).1.0 ≡ some v)
            × Pays
                (frontier c a n s now).0
                (send_a_block c a n s now to amount).0
                now
                v
                (c.pubkey_of to)
                amount
                (neutral c a v.representative)
                h
                b
            × (tagged_rep b.representative ≡ false))
        × (sent_of (send_a_block c a n s now to amount).1 ≡ none
            → (send_a_block c a n s now to amount).0 ≡ (frontier c a n s now).0)
  unfolding send_a_block with_frontier sent_of
  send_a_block_sound n s now to amount pub_ok = go (frontier c a n s now).1.0 refl
    where
      s0 : Cache
      s0 = (frontier c a n s now).0

      go :
          (o : Option View)
          → (frontier c a n s now).1.0 ≡ o
          → ((h : Bytes) (b : Block)
              → sent_of (send_a_block c a n s now to amount).1 ≡ some (h, b)
              → (v : View) × ((frontier c a n s now).1.0 ≡ some v)
                × Pays s0
                    (send_a_block c a n s now to amount).0
                    now
                    v
                    (c.pubkey_of to)
                    amount
                    (neutral c a v.representative)
                    h
                    b
                × (tagged_rep b.representative ≡ false))
            × (sent_of (send_a_block c a n s now to amount).1 ≡ none
                → (send_a_block c a n s now to amount).0 ≡ s0)
      go none q = (λ h b e. absurd (ground (arith, q, e)), λ e. ground (arith, q))
      go (some v) q =
          let same : send_a_block c a n s now to amount
              ≡ spend c a n s0 now v (c.pubkey_of to) amount (neutral c a v.representative) =
            ground (arith, q) in
          (
            λ h b e.
                let p =
                  spend_hands_out n s0 now v (c.pubkey_of to) amount (neutral c a v.representative)
                    h b (ground (arith, same, e)) in
                (
                  v,
                  q,
                  record {
                    was_opened = p.was_opened;
                    spent = p.spent;
                    follows = p.follows;
                    pays_link = p.pays_link;
                    pays_rep = p.pays_rep;
                    signed = p.signed;
                    recorded = ground (arith, same, p.recorded);
                  },
                  ground (arith, p.pays_rep, neutral_untagged v.representative pub_ok),
                ),
            λ e. ground (
              arith,
              same,
              spend_keeps n s0 now v (c.pubkey_of to) amount (neutral c a v.representative)
                  (ground (arith, same, e)),
            ),
          )
