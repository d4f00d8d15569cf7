-- ===== src/Relay/Server/Create/Free.antt =====
-- sail/relay/server.go, owner.go and pairing.go: the tags that become known without a payment.
use Prim.Native.String.{String}
use sailnet.Common.{ℕ, ◌≡◌, refl, sym, ap, ◌∙◌, arith, inl, inr, ◌⊎◌, true, false, Bool-cases}
use sailnet.Common.{Option, some, Bytes, take, drop}
use sailnet.Relay.Quota.{known}
use sailnet.Relay.Pairing.{Crypto, Server, has_owner, owner_create, pairing_create, is_active}
use sailnet.Relay.Pairing.Admission.{owner_create_sound, pairing_create_sound}
use sailnet.Relay.Server.Create.{Front, World, free_rides, door_of}

module _ (c : Crypto) where
  owner_create_keeps :
      (s : Server) (tag : String) (tag_bytes client_pub sig : Bytes)
      → (owner_create c s tag tag_bytes client_pub sig).1 ≡ false
      → (owner_create c s tag tag_bytes client_pub sig).0 ≡ s
  unfolding owner_create
  owner_create_keeps s tag tag_bytes client_pub sig e = ground (arith, e)

  pairing_create_keeps :
      (s : Server) (now : ℕ) (tag : String) (tag_bytes client_pub sig extra : Bytes)
      → (pairing_create c s now tag tag_bytes client_pub sig extra).1 ≡ false
      → (pairing_create c s now tag tag_bytes client_pub sig extra).0 ≡ s
  unfolding pairing_create
  pairing_create_keeps s now tag tag_bytes client_pub sig extra e = ground (arith, e)

  -- What the CREATE shows: the tag of an owner, configured or paired, that the owner has signed; or, while
  -- a pairing code is active, the pairing tag of a wallet, brought with its key and signed by it.
  abbrev pub RidesFree : ℕ → Server → Bytes → Bytes → Type 0
  RidesFree unix door relay payload =
      let client_pub = take 32 payload in
      let tag_bytes = take 32 (drop 32 payload) in
      let sig = take 64 (drop 64 payload) in
      let wallet = drop 5 (drop 128 payload) in
      ((o : Bytes) × (tag_bytes ≡ c.owner_tag relay o)
        × (c.verify_create o client_pub tag_bytes sig ≡ true)
        × ((door.owner ≡ some o) ⊎ (has_owner o door.owners ≡ true)))
      ⊎ ((is_active c door.disk unix ≡ true)
          × (tag_bytes ≡ c.pairing_tag relay wallet)
          × (c.verify_create wallet client_pub tag_bytes sig ≡ true))

  -- A tag that was unknown and is known before any payment is looked for, and before the small quota of
  -- a bridge, rides free rightly: the CREATE carries the tag of the configured owner or of a paired wallet,
  -- signed by it, or, while a pairing code is active, the pairing tag of a wallet, signed by that.
  pub free_rides_sound :
      (pubkey_of : String → Option Bytes) (owner_hex : String → Option String) (w : World)
      (tag : String) (payload relay : Bytes) (f : Front)
      → f.door.relay_key ≡ some relay
      → known c.quota_key f.quota tag ≡ false
      → known c.quota_key (free_rides c pubkey_of owner_hex w tag payload f).quota tag ≡ true
      → RidesFree w.unix f.door relay payload
  unfolding free_rides
  free_rides_sound pubkey_of owner_hex w tag payload relay f k unknown e =
      let client_pub = take 32 payload in
      let tag_bytes = take 32 (drop 32 payload) in
      let sig = take 64 (drop 64 payload) in
      let first = owner_create c (door_of f) tag tag_bytes client_pub sig in
      elim (Bool-cases first.1) [
        | inl y ↦ inl (owner_create_sound c (door_of f) tag tag_bytes client_pub sig relay k y)
        | inr n ↦
            let same = owner_create_keeps (door_of f) tag tag_bytes client_pub sig n in
            let second =
              pairing_create c (door_of f) w.unix tag tag_bytes client_pub sig (drop 128 payload) in
            elim (Bool-cases second.1) [
              | inl y ↦
                  let (a, t, v, rest) =
                    pairing_create_sound c (door_of f) w.unix tag tag_bytes client_pub sig
                      (drop 128 payload) relay f.quota k refl y in
                  inr (a, t, v)
              | inr m ↦
                  let kept =
                    pairing_create_keeps (door_of f) w.unix tag tag_bytes client_pub sig
                      (drop 128 payload) m in
                  let after : (free_rides c pubkey_of owner_hex w tag payload f).quota ≡ f.quota =
                    rw (free_rides, same, kept) refl in
                  absurd
                    (ground (arith, sym (ap (λ q. known c.quota_key q tag) after) ∙ e, unknown))
            ]
      ]
