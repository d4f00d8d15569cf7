-- ===== src/Relay/Pairing/Admission.antt =====
-- sail/relay/owner.go and pairing.go: who rides free.
use Prim.Native.String.{String}
use sailnet.Common.{ℕ, ◌≡◌, ◌≢◌, ap, ◌∙◌, arith, ◌⊎◌, inl, inr}
use sailnet.Common.{List, [], ◌∷◌, true, none, some, Bytes}
use sailnet.Common.{Bool-cases, Option-cases, bytes_eq, bytes_eq_refl, bytes_eq→eq, drop}
use sailnet.Relay.Quota.{Quota, known}
use sailnet.Relay.Pairing.{Server}
use sailnet.Relay.Pairing.{has_owner, add_owner, Crypto, find_owner, owner_for}
use sailnet.Relay.Pairing.{owner_create, is_active, pairing_create}

module _ (c : Crypto) where
  find_owner_sound :
      (relay tag : Bytes) (os : List Bytes) (o : Bytes)
      → find_owner c relay tag os ≡ some o
      → (tag ≡ c.owner_tag relay o) × (has_owner o os ≡ true)
  unfolding find_owner has_owner
  find_owner_sound relay tag [] o e = absurd (ground arith)
  find_owner_sound relay tag (p ∷ r) o e = ground (
    arith,
    bytes_eq→eq tag (c.owner_tag relay p),
    bytes_eq_refl p,
    find_owner_sound relay tag r o,
  )

  find_owner_complete :
      (relay : Bytes) (os : List Bytes) (o : Bytes)
      → has_owner o os ≡ true
      → find_owner c relay (c.owner_tag relay o) os ≢ none
  unfolding find_owner has_owner
  find_owner_complete relay [] o h = λ e. cc
  find_owner_complete relay (p ∷ r) o h = λ e.
      ground
        (arith, bytes_eq→eq p o, bytes_eq_refl (c.owner_tag relay o), find_owner_complete relay r o)

  owner_for_sound :
      (s : Server) (tag relay o : Bytes)
      → s.relay_key ≡ some relay
      → owner_for c s tag ≡ some o
      → (tag ≡ c.owner_tag relay o) × ((s.owner ≡ some o) ⊎ (has_owner o s.owners ≡ true))
  unfolding owner_for
  owner_for_sound s tag relay o k p =
      let listed = find_owner_sound relay tag s.owners o in
      elim (Option-cases s.owner) [
        | inl q ↦ let f = listed (ground arith) in (f.0, inr f.1)
        | inr (w, q) ↦ elim (Bool-cases (bytes_eq tag (c.owner_tag relay w))) [
          | inl same ↦
              let e : w ≡ o = ground arith in
              (bytes_eq→eq tag (c.owner_tag relay w) same ∙ ap (c.owner_tag relay) e, inl (cc q))
          | inr other ↦ let f = listed (ground arith) in (f.0, inr f.1)
        ]
      ]

  -- Only an owner's signature over an owner's tag rides free: a CREATE that is admitted carries the tag
  -- of the configured owner or of a paired one, signed by that owner.
  pub owner_create_sound :
      (s : Server) (tag : String) (tag_bytes client_pub sig relay : Bytes)
      → s.relay_key ≡ some relay
      → (owner_create c s tag tag_bytes client_pub sig).1 ≡ true
      → (o : Bytes) × (tag_bytes ≡ c.owner_tag relay o)
        × (c.verify_create o client_pub tag_bytes sig ≡ true)
        × ((s.owner ≡ some o) ⊎ (has_owner o s.owners ≡ true))
  unfolding owner_create
  owner_create_sound s tag tag_bytes client_pub sig relay k e =
      elim (Option-cases (owner_for c s tag_bytes)) [
        | inl n ↦ absurd (ground arith)
        | inr (o, p) ↦ (
          o,
          (owner_for_sound s tag_bytes relay o k p).0,
          ground arith,
          (owner_for_sound s tag_bytes relay o k p).1,
        )
      ]

  -- A wallet that was paired is admitted from then on: its tag for this relay finds an owner.
  pub owner_for-add_owner :
      (s : Server) (k relay : Bytes)
      → s.relay_key ≡ some relay
      → owner_for c (add_owner s k) (c.owner_tag relay k) ≢ none
  unfolding owner_for add_owner has_owner
  owner_for-add_owner s k relay e = λ p. ground (
    arith,
    bytes_eq_refl k,
    find_owner_complete relay s.owners k,
    find_owner_complete relay (k ∷ s.owners) k,
  )

  -- A pairing circuit opens without payment only while a code is active, only for the wallet that
  -- signed it, and it never changes the quota of a tag that is known already.
  pub pairing_create_sound :
      (s : Server) (now : ℕ) (tag : String) (tag_bytes client_pub sig extra relay : Bytes)
      (q : Quota)
      → s.relay_key ≡ some relay
      → s.quota ≡ some q
      → (pairing_create c s now tag tag_bytes client_pub sig extra).1 ≡ true
      → (is_active c s.disk now ≡ true)
        × (tag_bytes ≡ c.pairing_tag relay (drop 5 extra))
        × (c.verify_create (drop 5 extra) client_pub tag_bytes sig ≡ true)
        × (known c.quota_key q tag ≡ true
            → (pairing_create c s now tag tag_bytes client_pub sig extra).0.quota ≡ some q)
  unfolding pairing_create
  pairing_create_sound s now tag tag_bytes client_pub sig extra relay q k p e =
      let same = bytes_eq→eq tag_bytes (c.pairing_tag relay (drop 5 extra)) in
      (ground (arith, same), ground (arith, same), ground arith, λ h. ground arith)
