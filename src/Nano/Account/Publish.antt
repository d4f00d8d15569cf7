-- ===== src/Nano/Account/Publish.antt =====
-- sail/nano/block.go: what one operation of an account hands out, and what it leaves in the cache.
use sailnet.Common.{ℕ, ◌≡◌, refl, arith, Bytes}
use sailnet.Common.{Option, none, some}
use Prim.Native.String.{String}
use sailnet.Nano.State.{set}
use sailnet.Nano.Account.{
  Block, Failure, Subtype, Sent, Node, Crypto, Account, Cache, published, unpublished, failed,
}
use sailnet.Nano.Account.{hash, work, after, publish, sign_and_publish}

-- The hash and block an operation hands out: a `PublishError` comes with both.
unfoldable pub sent_of : Sent → Option (Bytes × Block)
sent_of (published h b) = some (h, b)
sent_of (unpublished h b) = some (h, b)
sent_of (failed e) = none

module _ (c : Crypto) (a : Account) where
  -- The block has the fields it was built with, and is the new state of the cache.
  pub record Fits (s s' : Cache) (now : ℕ) (draft b : Block) (h : Bytes) : Type 0 where
    pub fits_previous : b.previous ≡ draft.previous
    pub fits_rep : b.representative ≡ draft.representative
    pub fits_balance : b.balance ≡ draft.balance
    pub fits_link : b.link ≡ draft.link
    pub fits_hash : hash c draft ≡ some h
    pub fits_signature : b.signature ≡ c.sign h
    pub fits_cache : s' ≡ set s (after c a h b) now

  publish_hands_out :
      (n : Node) (s : Cache) (now : ℕ) (b : Block) (h : Bytes) (t : Subtype) (h' : Bytes)
      (b' : Block)
      → sent_of (publish c a n s now b h t).1 ≡ some (h', b')
      → (h' ≡ h) × (b' ≡ b) × ((publish c a n s now b h t).0 ≡ set s (after c a h b) now)
  unfolding sent_of publish
  publish_hands_out n s now b h t h' b' e = go (n.process b t) refl
    where
      go :
          (o : Option Failure)
          → n.process b t ≡ o
          → (h' ≡ h) × (b' ≡ b) × ((publish c a n s now b h t).0 ≡ set s (after c a h b) now)
      go none q = ground (arith, q)
      go (some f) q = ground (arith, q)

  publish_keeps :
      (n : Node) (s : Cache) (now : ℕ) (b : Block) (h : Bytes) (t : Subtype)
      → sent_of (publish c a n s now b h t).1 ≡ none
      → (publish c a n s now b h t).0 ≡ s
  unfolding sent_of publish
  publish_keeps n s now b h t e = go (n.process b t) refl
    where
      go : (o : Option Failure) → n.process b t ≡ o → (publish c a n s now b h t).0 ≡ s
      go none q = ground (arith, q)
      go (some f) q = ground (arith, q)

  hash_fields :
      (b : Block) (g w : Bytes) (v : String)
      → hash c (record b { signature = g; work = v }) ≡ hash c b
  unfolding hash
  hash_fields b g w v = refl

  pub sign_and_publish_hands_out :
      (n : Node) (s : Cache) (now : ℕ) (d : Block) (t : Subtype) (root : Bytes) (th : ℕ) (h : Bytes)
      (b : Block)
      → sent_of (sign_and_publish c a n s now d t root th).1 ≡ some (h, b)
      → Fits s (sign_and_publish c a n s now d t root th).0 now d b h
  unfolding sent_of sign_and_publish
  sign_and_publish_hands_out n s now d t root th h b e =
      go (hash c d) (work c a n root th) refl refl
    where
      go :
          (o : Option Bytes) (w : Option String)
          → hash c d ≡ o
          → work c a n root th ≡ w
          → Fits s (sign_and_publish c a n s now d t root th).0 now d b h
      go none w p q = absurd (ground (arith, p))
      go (some g) none p q = absurd (ground (arith, p, q))
      go (some g) (some w) p q =
          let d' = record d { signature = c.sign g; work = w } in
          let (x, y, z) = publish_hands_out n s now d' g t h b (ground (arith, p, q)) in
          record {
            fits_previous = ground (arith, y);
            fits_rep = ground (arith, y);
            fits_balance = ground (arith, y);
            fits_link = ground (arith, y);
            fits_hash = ground (arith, x, p);
            fits_signature = ground (arith, x, y);
            fits_cache = ground (arith, p, q, x, y, z);
          }

  pub sign_and_publish_keeps :
      (n : Node) (s : Cache) (now : ℕ) (d : Block) (t : Subtype) (root : Bytes) (th : ℕ)
      → sent_of (sign_and_publish c a n s now d t root th).1 ≡ none
      → (sign_and_publish c a n s now d t root th).0 ≡ s
  unfolding sent_of sign_and_publish
  sign_and_publish_keeps n s now d t root th e = go (hash c d) (work c a n root th) refl refl
    where
      go :
          (o : Option Bytes) (w : Option String)
          → hash c d ≡ o
          → work c a n root th ≡ w
          → (sign_and_publish c a n s now d t root th).0 ≡ s
      go none w p q = ground (arith, p)
      go (some g) none p q = ground (arith, p, q)
      go (some g) (some w) p q = ground (
        arith,
        p,
        q,
        publish_keeps n s now (record d { signature = c.sign g; work = w }) g t
            (ground (arith, p, q)),
      )
