-- ===== src/Relay/Registry.antt =====
-- sail/relay/registry.go: the relays that a registry knows from the ledger, from bridge lines and from
-- gossip, and which of its words on a relay counts. The lock and the files are not modelled.
pub mod Agree
use Prim.Native.String.{String}
use text.Mathlib.Text.{◌==◌ as str_eq}
use sailnet.Common.{
  ℕ, List, [], ◌∷◌, ◌++◌, Bool, true, false, ◌&&◌, if◌then◌else◌, Option, none, some, lookup,
  insert, bytes_eq, ◌==◌, ◌/◌, ◌%◌,
}
use sailnet.Relay.Gossip.{
  SignedRecord, RelayInfo, Descriptor, Crypto, Verdict, refused, describes, verify_record, Table,
}

abbrev pub Relays : Type 0
Relays = List (String × RelayInfo)

pub record Registry : Type 0 where
  pub relays : Relays
  pub bridges : Relays
  pub gossip : Table

-- A listed relay that is handed out as a bridge too.
pub as_bridge : RelayInfo → RelayInfo → RelayInfo
as_bridge v b = record v {
  unlisted = true;
  desc = b.desc;
  secret = b.secret;
  host = if str_eq b.host "" then v.host else b.host;
}

-- `Add`.
pub add : RelayInfo → Registry → Registry
add ri r =
    if ri.unlisted
    then record r { bridges = insert ri.account ri r.bridges }
    else record r { relays = insert ri.account ri r.relays }

-- The first loop of `All`, whose result the code sorts at the end.
pub listed : Relays → Relays → List RelayInfo
listed bridges [] = []
listed bridges ((acct, v) ∷ relays) =
    (elim (lookup v.account bridges) [ none ↦ v | some b ↦ as_bridge v b ]) ∷ listed bridges relays

module _ (c : Crypto) (now : ℕ) where
  -- What a record says, if it verifies.
  pub said_by : SignedRecord → Option RelayInfo
  said_by rec = elim (verify_record c now rec) [ refused e ↦ none | describes ri ↦ some ri ]

  -- `bridgeWithRecordLocked`.
  pub bridge_with_record : Table → RelayInfo → RelayInfo
  unfolding said_by
  bridge_with_record gossip b = elim (lookup b.account gossip) [
    | none ↦ b
    | some rec ↦ elim (said_by rec) [
      | none ↦ b
      | some ri ↦ record b {
        flags = ri.flags;
        country = ri.country;
        asn = ri.asn;
        min_rate = ri.min_rate;
        host = if str_eq b.host "" then ri.host else b.host;
      }
    ]
  ]

  -- `Get`.
  unfoldable pub get : String → Registry → Option RelayInfo
  unfolding bridge_with_record
  get acct r = elim (lookup acct r.bridges) [
    | some b ↦ elim (lookup acct r.relays) [
      | some v ↦ some (as_bridge v b)
      | none ↦ some (bridge_with_record r.gossip b)
    ]
    | none ↦ elim (lookup acct r.relays) [
      | some v ↦ some v
      | none ↦ elim (lookup acct r.gossip) [ none ↦ none | some rec ↦ said_by rec ]
    ]
  ]

  -- The other two loops of `All`.
  pub only_bridges : Registry → Relays → List RelayInfo
  unfolding bridge_with_record
  only_bridges r [] = []
  only_bridges r ((acct, v) ∷ bridges) =
      let rest = only_bridges r bridges in
      elim (lookup v.account r.relays) [
        | none ↦ bridge_with_record r.gossip v ∷ rest
        | some l ↦ rest
      ]

  pub gossip_relays : Registry → Table → List RelayInfo
  unfolding said_by
  gossip_relays r [] = []
  gossip_relays r ((acct, rec) ∷ table) =
      let rest = gossip_relays r table in
      elim (lookup acct r.relays) [
        | some v ↦ rest
        | none ↦ elim (lookup acct r.bridges) [
          | some b ↦ rest
          | none ↦ elim (said_by rec) [ none ↦ rest | some ri ↦ ri ∷ rest ]
        ]
      ]

  pub all : Registry → List RelayInfo
  unfolding listed only_bridges gossip_relays
  all r = listed r.bridges r.relays ++ (only_bridges r r.bridges ++ gossip_relays r r.gossip)
