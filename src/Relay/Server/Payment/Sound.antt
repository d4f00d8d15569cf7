-- ===== src/Relay/Server/Payment/Sound.antt =====
-- sail/relay/server.go: only a confirmed payment to this relay becomes quota.
use mathlib.Core.Path.{subst}
use Prim.Native.String.{String}
use text.Mathlib.TextEquality.{eq_iff}
use sailnet.Common.{
  ℕ, ◌≡◌, refl, sym, ap, arith, Bool, List, true, false, not, ◌&&◌, length, [], ◌∷◌, Option, none,
  some, Bytes, positive, ◌==◌, add64, mul64, div64, signed_lt, lookup, lookup-insert, if◌then◌else◌,
  Option-cases,
}
use text.Mathlib.Text.{◌==◌ as str_eq}
use sailnet.Relay.Spot.{rep_bonus, is_member, tagged_rep}
use sailnet.Common.{Bool-cases, inl, inr, ◌⊎◌}
use sailnet.Relay.Quota.{credit, bytes_for, at}
use sailnet.Relay.Quota.Rates.{IsPrice, bytes_for-IsPrice}
use sailnet.Relay.Server.Payment.{
  BlockInfo, Reply, unreachable, missing, no_answer, unconfirmed, refused, granted, is_paid, found,
  Outcome, Till, Terms, paid, recipient, reward_epoch, bought, credit_owner, credit_block,
  credit_from_ledger, floor_credit, of_day,
}

-- What a block must be for its payment to count: a confirmed send to this relay, no reward payment, of an
-- amount that buys a byte at least, from an account that has a key.
pub record IsPayment (pubkey_of : String → Option Bytes) (owner_hex : String → Option String)
    (t : Terms) (b : BlockInfo) (owner : String) : Type 0 where
  pub is_send : b.subtype ≡ "send"
  pub is_ours : recipient b ≡ t.address
  pub no_levy : reward_epoch pubkey_of b.representative ≡ none
  pub is_confirmed : b.confirmed ≡ "true"
  pub buys : (amount : ℕ) × (b.amount ≡ some amount) × (positive (bytes_for amount t.rate) ≡ true)
  pub has_owner : owner_hex b.account ≡ some owner

no_friends : (a : String) (fs : List String) → (length fs == 0) ≡ true → is_member a fs ≡ false
unfolding is_member
no_friends a [] h = refl
no_friends a (f ∷ fs) h = absurd (ground (arith, h))

payer : (o : Outcome) → is_paid o ≡ true → (owner : String) × (o ≡ paid owner)
payer no_answer h = cc
payer unconfirmed h = cc
payer (refused r) h = cc
payer (paid owner) h = (owner, refl)

module _ (key : String → String) (pubkey_of : String → Option Bytes)
    (owner_hex : String → Option String) where
  credit_block_sound :
      (t : Terms) (day : ℕ) (tag : String) (b : BlockInfo) (s : Till) (owner : String)
      → (credit_block key pubkey_of owner_hex t day tag b s).1 ≡ paid owner
      → IsPayment pubkey_of owner_hex t b owner
  unfolding credit_block bought credit_owner
  credit_block_sound t day tag b s owner h = record {
    is_send = ground (arith, h, eq_iff b.subtype "send");
    is_ours = ground (arith, h, eq_iff (recipient b) t.address);
    no_levy = ground (arith, h);
    is_confirmed = ground (arith, h, eq_iff b.confirmed "true");
    buys = ground (arith, h);
    has_owner = ground (arith, h);
  }

  -- The bonus of a sender whose representative is one of the relay's friends: `pct` percent more. A
  -- representative that carries an operation, or has no key, is no friend.
  abbrev pub is_friend : Terms → BlockInfo → Bool
  is_friend t b =
      not (str_eq b.representative "")
      && is_member b.representative t.friends
      && (elim (pubkey_of b.representative) [ none ↦ false | some k ↦ not (tagged_rep k) ])

  abbrev pub with_bonus : Terms → BlockInfo → ℕ → ℕ
  with_bonus t b n =
      if is_friend t b && not (t.rep_bonus_pct == 0)
      then add64 n (div64 (mul64 n t.rep_bonus_pct) 100)
      else n

  -- Less than the floor of `t`, and the first such payment of its sender on this day.
  abbrev pub is_raised : Terms → ℕ → String → ℕ → List (String × ℕ) → Bool
  is_raised t day owner p welcome =
      positive t.min_credit
      && signed_lt p t.min_credit
      && not (str_eq owner "")
      && not (at owner welcome == day)

  -- What becomes of a payment that buys `n` bytes at the price: it is credited with the bonus, or is raised
  -- to the floor, which is noted for the day.
  pub record IsCredited (t : Terms) (day : ℕ) (tag owner : String) (b : BlockInfo) (n : ℕ)
      (s r : Till) : Type 0 where
    pub credits :
        let p = with_bonus t b n in
        let bytes = if is_raised t day owner p s.welcome then t.min_credit else p in
        r.quota ≡ (credit key s.quota tag bytes owner).0
    pub notes :
        is_raised t day owner (with_bonus t b n) s.welcome ≡ true
        → lookup owner r.welcome ≡ some day
    pub keeps : is_raised t day owner (with_bonus t b n) s.welcome ≡ false → r.welcome ≡ s.welcome

  -- The model's own words for the bonus and the floor are these.
  bought-with_bonus :
      (t : Terms) (b : BlockInfo) (amount : ℕ)
      → positive (bytes_for amount t.rate) ≡ true
      → bought key pubkey_of owner_hex t b amount ≡ some (with_bonus t b (bytes_for amount t.rate))
  unfolding bought rep_bonus is_member
  bought-with_bonus t b amount h = elim (Option-cases (pubkey_of b.representative)) [
    | inl o ↦ ground (arith, h, o)
    | inr (k, o) ↦ ground (arith, h, o, no_friends b.representative t.friends)
  ]

  granted-floor :
      (t : Terms) (day : ℕ) (owner : String) (p : ℕ) (w : List (String × ℕ))
      → ((granted t day owner p w).1 ≡ (if is_raised t day owner p w then t.min_credit else p))
        × (is_raised t day owner p w ≡ true → lookup owner (granted t day owner p w).0 ≡ some day)
        × (is_raised t day owner p w ≡ false → (granted t day owner p w).0 ≡ w)
  unfolding granted floor_credit
  granted-floor t day owner p w = ground (
    arith,
    eq_iff owner owner,
    lookup-insert owner owner day w,
    lookup-insert owner owner day (of_day day w),
  )

  credit_owner-IsCredited :
      (t : Terms) (day : ℕ) (tag owner : String) (b : BlockInfo) (n : ℕ) (s : Till)
      → owner_hex b.account ≡ some owner
      → IsCredited t day tag owner b n s
          (credit_owner key pubkey_of owner_hex t day tag b (with_bonus t b n) s).0
  unfolding credit_owner
  credit_owner-IsCredited t day tag owner b n s h =
      let p = with_bonus t b n in
      let (amount, noted, kept) = granted-floor t day owner p s.welcome in
      record {
        credits = rw (credit_owner, h) (ap (λ x. (credit key s.quota tag x owner).0) amount);
        notes = λ e. rw (credit_owner, h) (noted e);
        keeps = λ e. rw (credit_owner, h) (kept e);
      }

  credit_block-IsCredited :
      (t : Terms) (day : ℕ) (tag : String) (b : BlockInfo) (s : Till) (owner : String) (amount : ℕ)
      → (credit_block key pubkey_of owner_hex t day tag b s).1 ≡ paid owner
      → b.amount ≡ some amount
      → positive (bytes_for amount t.rate) ≡ true
      → IsCredited t day tag owner b
          (bytes_for amount t.rate)
          s
          (credit_block key pubkey_of owner_hex t day tag b s).0
  unfolding credit_block
  credit_block-IsCredited t day tag b s owner amount h e o =
      let k = credit_block_sound t day tag b s owner h in
      let n = with_bonus t b (bytes_for amount t.rate) in
      let same : credit_block key pubkey_of owner_hex t day tag b s
          ≡ credit_owner key pubkey_of owner_hex t day tag b n s =
        ground (arith, h, e, bought-with_bonus t b amount o) in
      subst (λ r. IsCredited t day tag owner b (bytes_for amount t.rate) s r.0) (sym same)
        (credit_owner-IsCredited t day tag owner b (bytes_for amount t.rate) s k.has_owner)

  credit_block_else :
      (t : Terms) (day : ℕ) (tag : String) (b : BlockInfo) (s : Till)
      → is_paid (credit_block key pubkey_of owner_hex t day tag b s).1 ≡ false
      → (credit_block key pubkey_of owner_hex t day tag b s).0 ≡ s
  unfolding credit_block credit_owner
  credit_block_else t day tag b s h = ground (arith, h)

  -- The ledger's answer is honoured: a payment is credited as it should be, and nothing else changes.
  abbrev pub Honours : Terms → ℕ → String → Reply → Till → Type 0
  Honours t day tag reply s =
      let r = credit_from_ledger key pubkey_of owner_hex t day tag reply s in
      ((is_paid r.1 ≡ false) × (r.0 ≡ s))
      ⊎ ((owner : String) × (b : BlockInfo) × (reply ≡ found b)
          × (r.1 ≡ paid owner)
          × IsPayment pubkey_of owner_hex t b owner
          × ((amount n : ℕ) × (b.amount ≡ some amount)
              × IsPrice amount t.rate n
              × IsCredited t day tag owner b n s r.0))

  -- For every answer of the ledger: either nothing is credited and the state is as it was, or the answer
  -- is a confirmed send to this relay, of an amount that buys a byte at least and no reward payment, and
  -- its tag is credited, under its sender, with the bytes that the amount buys at the price of the moment,
  -- 2 ^ 20 for each time it holds the rate, rounded down, or 2 ^ 62 when an int64 cannot hold so many; raised by
  -- the bonus when the sender's representative is a friend of the relay; or with the floor instead, when
  -- that is more, at most for the first such payment of its sender on the day, which is then noted.
  pub credit_from_ledger_sound :
      (t : Terms) (day : ℕ) (tag : String) (reply : Reply) (s : Till) → Honours t day tag reply s
  unfolding credit_from_ledger
  credit_from_ledger_sound t day tag unreachable s = inl (ground arith, refl)
  credit_from_ledger_sound t day tag missing s = inl (ground arith, refl)
  credit_from_ledger_sound t day tag (found b) s =
      let r = credit_block key pubkey_of owner_hex t day tag b s in
      elim (Bool-cases t.has_ledger) [
        | inr off ↦ inl (ground (arith, off), ground (arith, off))
        | inl on ↦ elim (Bool-cases (is_paid r.1)) [
          | inr e ↦
              inl (ground (arith, on, e), ground (arith, on, credit_block_else t day tag b s e))
          | inl e ↦
              let (owner, h) = payer r.1 e in
              let run : credit_from_ledger key pubkey_of owner_hex t day tag (found b) s
                  ≡ credit_block key pubkey_of owner_hex t day tag b s =
                rw on refl in
              let (amount, e', positive_bytes) = (credit_block_sound t day tag b s owner h).buys in
              inr (
                owner,
                b,
                refl,
                ground (arith, on, h),
                credit_block_sound t day tag b s owner h,
                subst
                    (λ (r : Till × Outcome).
                      (amount n : ℕ) × (b.amount ≡ some amount)
                      × IsPrice amount t.rate n
                      × IsCredited t day tag owner b n s r.0)
                    (sym run)
                    (
                      amount,
                      bytes_for amount t.rate,
                      e',
                      bytes_for-IsPrice amount t.rate positive_bytes,
                      credit_block-IsCredited t day tag b s owner amount h e' positive_bytes,
                    ),
              )
        ]
      ]
