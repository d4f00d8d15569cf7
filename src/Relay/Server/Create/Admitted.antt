-- ===== src/Relay/Server/Create/Admitted.antt =====
-- sail/relay/server.go: what a CREATE that opens a circuit has shown.
use Prim.Native.String.{String}
use text.Mathlib.TextEquality.{eq_iff}
use sailnet.Common.{ℕ, ◌/◌, ◌≡◌, ◌≤◌, ap, ◌∙◌, arith, inl, inr, ◌⊎◌, Bool, true, not}
use sailnet.Common.{Option, some, Bytes, length, take, drop, ltb, if◌then◌else◌, if_cases, positive}
use sailnet.Relay.Quota.{Quota, known, owner_of, remaining}
use sailnet.Relay.Quota.Effects.{known-credit}
use sailnet.Relay.Pairing.{Crypto}
use sailnet.Relay.Server.Verify.{allow_verify}
use sailnet.Relay.Server.Payment.{Outcome, is_paid, credit_from_ledger, Till, Terms, Reply}
use sailnet.Relay.Server.Payment.Sound.{credit_from_ledger_sound}
use sailnet.Relay.Server.Metering.{overdraft_ok}
use sailnet.Relay.Server.Create.{
  Front, Settings, World, Verdict, opened, rejected, mark_failed, ask_ledger, check_owner, pay_for,
  before_asking, bad_create, too_many, not_accepted, handle_create, free_rides, till_of,
}

module _ (c : Crypto) where
  -- The CREATE is signed by the tag's owner, if it has one, and there is something left to spend.
  pub record IsEntitled (s : Settings) (of_hex : String → Option Bytes) (tag : String)
      (payload : Bytes) (q : Quota) : Type 0 where
    pub by_owner :
        (owner_of c.quota_key q tag ≡ "")
        ⊎ ((o : Bytes) × (of_hex (owner_of c.quota_key q tag) ≡ some o)
            × (c.verify_create o
                  (take 32 payload)
                  (take 32 (drop 32 payload))
                  (take 64 (drop 64 payload))
                ≡ true))
    pub solvent :
        (positive (remaining c.quota_key q tag) ≡ true)
        ⊎ (overdraft_ok c.quota_key s.registry q tag (remaining c.quota_key q tag) ≡ true)

module _ (c : Crypto) (pubkey_of : String → Option Bytes) (owner_hex : String → Option String) where
  check_owner_sound :
      (of_hex : String → Option Bytes) (s : Settings) (tag : String) (payload : Bytes) (q : Quota)
      → check_owner c pubkey_of owner_hex of_hex s tag payload q ≡ opened
      → IsEntitled c s of_hex tag payload q
  unfolding check_owner
  check_owner_sound of_hex s tag payload q h = record {
    by_owner = ground (arith, h, eq_iff (owner_of c.quota_key q tag) "");
    solvent = ground (arith, h);
  }

  credit_from_ledger-known :
      (t : Terms) (day : ℕ) (tag : String) (reply : Reply) (s : Till)
      → is_paid (credit_from_ledger c.quota_key pubkey_of owner_hex t day tag reply s).1 ≡ true
      → known c.quota_key
          (credit_from_ledger c.quota_key pubkey_of owner_hex t day tag reply s).0.quota
          tag
        ≡ true
  credit_from_ledger-known t day tag reply s h =
      elim (credit_from_ledger_sound c.quota_key pubkey_of owner_hex t day tag reply s) [
        | inl (u, e) ↦ absurd (ground (arith, u, h))
        | inr (owner, b, u, v, x, (amount, n, w, p, e)) ↦
            ap (λ q. known c.quota_key q tag) e.credits
            ∙ known-credit c.quota_key s.quota tag _ owner
      ]

  mark_failed_quota :
      (now : ℕ) (tag : String) (o : Outcome) (f : Front) → (mark_failed now tag o f).quota ≡ f.quota
  unfolding mark_failed
  mark_failed_quota now tag o f = ground arith

  ask_ledger-known :
      (s : Settings) (w : World) (tag : String) (f : Front)
      → (ask_ledger c pubkey_of owner_hex s w tag f).1 ≡ true
      → known c.quota_key (ask_ledger c pubkey_of owner_hex s w tag f).0.quota tag ≡ true
  unfolding ask_ledger
  ask_ledger-known s w tag f h =
      ap (λ q. known c.quota_key q tag) (mark_failed_quota w.now tag _ _)
      ∙ credit_from_ledger-known s.terms (w.unix / 86400) tag (w.replies 9) (till_of f) h

  pay_for-known :
      (s : Settings) (w : World) (tag : String) (payload : Bytes) (f : Front)
      → (pay_for c pubkey_of owner_hex s w tag payload f).1 ≡ true
      → known c.quota_key (pay_for c pubkey_of owner_hex s w tag payload f).0.quota tag ≡ true
  unfolding pay_for
  pay_for-known s w tag payload f =
      let h = before_asking c pubkey_of owner_hex s w tag payload f in
      if_cases (λ (r : Front × Bool). r.1 ≡ true → known c.quota_key r.0.quota tag ≡ true)
        (known c.quota_key h.quota tag) {x = (h, true)}
        {y = ask_ledger c pubkey_of owner_hex s w tag h} (λ k o. k)
        (λ k o. ask_ledger-known s w tag h o)

  -- A CREATE that opens a circuit has at least 128 bytes, and its tag is known by then; it is signed by
  -- the key of the tag's owner, if the tag has one, and the tag has bytes left or is the pool of a
  -- listed relay within its overdraft. This holds whatever the ledger answers, however the payment was
  -- brought, and for owners, paired wallets and bridges.
  pub handle_create_sound :
      (of_hex : String → Option Bytes) (s : Settings) (w : World) (tag : String) (payload : Bytes)
      (f : Front)
      → (handle_create c pubkey_of owner_hex of_hex s w tag payload f).1 ≡ opened
      → let q = (handle_create c pubkey_of owner_hex of_hex s w tag payload f).0.quota in
        (128 ≤ length payload)
        × (known c.quota_key q tag ≡ true)
        × IsEntitled c s of_hex tag payload q
  unfolding handle_create
  handle_create_sound of_hex s w tag payload f =
      let g = free_rides c pubkey_of owner_hex w tag payload f in
      let (v, allowed) = allow_verify w.now tag w.ip g.verifier in
      let limited = record g { verifier = v } in
      let (h, good) = pay_for c pubkey_of owner_hex s w tag payload limited in
      let check : Quota → Verdict = λ q. check_owner c pubkey_of owner_hex of_hex s tag payload q in
      let Sound : Front × Verdict → Type 0 = λ r.
        r.1 ≡ opened
        → (128 ≤ length payload)
          × (known c.quota_key r.0.quota tag ≡ true)
          × IsEntitled c s of_hex tag payload r.0.quota in
      let paid_for : Front × Verdict =
        if good then (h, check h.quota) else (h, rejected not_accepted) in
      let limits : Front × Verdict =
        if not allowed then (limited, rejected too_many) else paid_for in
      let known_or : Front × Verdict =
        if known c.quota_key g.quota tag then (g, check g.quota) else limits in
      if_cases Sound (ltb (length payload) 128) {x = (f, rejected bad_create)} {y = known_or}
        (λ k o. absurd (cc o))
        λ long.
          if_cases Sound (known c.quota_key g.quota tag) {x = (g, check g.quota)} {y = limits}
            (λ k o. (ground (arith, long), k, check_owner_sound of_hex s tag payload g.quota o))
            λ k.
              if_cases Sound (not allowed) {x = (limited, rejected too_many)} {y = paid_for}
                (λ z o. absurd (cc o))
                λ z.
                  if_cases Sound good {x = (h, check h.quota)} {y = (h, rejected not_accepted)}
                    (λ e o. (
                      ground (arith, long),
                      pay_for-known s w tag payload limited e,
                      check_owner_sound of_hex s tag payload h.quota o,
                    ))
                    λ e o. absurd (cc o)
