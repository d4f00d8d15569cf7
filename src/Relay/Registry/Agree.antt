-- ===== src/Relay/Registry/Agree.antt =====
-- sail/relay/registry.go: `All` and `Get` give the same word on a relay.
use Prim.Native.String.{String}
use text.Mathlib.Text.{◌==◌ as str_eq}
use text.Mathlib.TextEquality.{eq_iff}
use sailnet.Common.{
  ℕ, ◌≡◌, refl, ap, sym, ◌∙◌, inl, inr, arith, List, [], ◌∷◌, ◌++◌, if◌then◌else◌, All, Option,
  none, some, lookup, true, Option-cases, Bool-cases, DistinctKeys,
}
use sailnet.Relay.Gossip.{SignedRecord, RelayInfo, Crypto, Table, verify_record}
use sailnet.Relay.Gossip.Table.{Verdict-cases, describes_account}
use sailnet.Relay.Registry.{
  Relays, Registry, as_bridge, said_by, bridge_with_record, get, listed, only_bridges,
  gossip_relays, all,
}

-- The relays of an account in a list.
pub named : String → List RelayInfo → List RelayInfo
named acct [] = []
named acct (v ∷ vs) = let rest = named acct vs in if str_eq v.account acct then v ∷ rest else rest

abbrev pub to_list : Option RelayInfo → List RelayInfo
to_list none = []
to_list (some v) = v ∷ []

-- Every entry stands at its own account.
abbrev pub IsKeyed : Relays → Type 0
IsKeyed m = All (λ e. e.0 ≡ e.1.account) m

named-append :
    (acct : String) (xs ys : List RelayInfo)
    → named acct (xs ++ ys) ≡ named acct xs ++ named acct ys
unfolding named
named-append acct [] ys = refl
named-append acct (x ∷ xs) ys = ground (arith, named-append acct xs ys)

-- The relay of the ledger, with what a bridge line adds.
listed_as : Relays → RelayInfo → RelayInfo
listed_as bridges v = elim (lookup v.account bridges) [ none ↦ v | some b ↦ as_bridge v b ]

listed_as_account : (bridges : Relays) (v : RelayInfo) → (listed_as bridges v).account ≡ v.account
unfolding listed_as as_bridge
listed_as_account bridges v = elim (Option-cases (lookup v.account bridges)) [
  | inl o ↦ ground (arith, o)
  | inr (b, o) ↦ ground (arith, o)
]

-- A key that comes first does not come again.
fresh_here :
    {V : Type 0} (a acct : String) (m : List (String × V))
    → lookup a m ≡ none
    → str_eq a acct ≡ true
    → lookup acct m ≡ none
fresh_here a acct m f e =
    let same : a ≡ acct = ground (arith, e, eq_iff a acct) in ap (λ x. lookup x m) (sym same) ∙ f

named-listed :
    (acct : String) (bridges relays : Relays)
    → IsKeyed relays
    → DistinctKeys relays
    → named acct (listed bridges relays)
      ≡ to_list (elim (lookup acct relays) [ none ↦ none | some v ↦ some (listed_as bridges v) ])
unfolding named listed lookup listed_as
named-listed acct bridges [] k d = refl
named-listed acct bridges ((a, v) ∷ relays) (k, ks) (f, d) = ground (
  arith,
  k,
  listed_as_account bridges v,
  named-listed acct bridges relays ks d,
  fresh_here a acct relays f,
)

keyed_account :
    (acct : String) (m : Relays) (v : RelayInfo)
    → IsKeyed m
    → lookup acct m ≡ some v
    → acct ≡ v.account
unfolding lookup
keyed_account acct [] v k h = absurd (ground (arith, h))
keyed_account acct ((a, w) ∷ m) v (k, ks) h = elim (Bool-cases (str_eq a acct)) [
  | inl e ↦
      let same : a ≡ acct = ground (arith, e, eq_iff a acct) in
      let found : w ≡ v = ground (arith, e, h) in sym same ∙ k ∙ ap (λ x. x.account) found
  | inr e ↦ keyed_account acct m v ks (ground (arith, e, h))
]

module _ (c : Crypto) (now : ℕ) where
  said_by-account :
      (rec : SignedRecord) (ri : RelayInfo) → said_by c now rec ≡ some ri → ri.account ≡ rec.account
  unfolding said_by
  said_by-account rec ri h = elim (Verdict-cases (verify_record c now rec)) [
    | inl (e, v) ↦ absurd (ground (arith, h, v))
    | inr (rj, v) ↦
        let same : rj ≡ ri = ground (arith, h, v) in
        ap (λ x. x.account) (sym same) ∙ describes_account c now rec rj v
  ]

  bridge_account :
      (gossip : Table) (b : RelayInfo) → (bridge_with_record c now gossip b).account ≡ b.account
  unfolding bridge_with_record
  bridge_account gossip b = elim (Option-cases (lookup b.account gossip)) [
    | inl o ↦ ground (arith, o)
    | inr (rec, o) ↦ elim (Option-cases (said_by c now rec)) [
      | inl s ↦ ground (arith, o, s)
      | inr (ri, s) ↦ ground (arith, o, s)
    ]
  ]

  -- Bridges that are not on the ledger.
  named-only_bridges :
      (acct : String) (r : Registry) (bridges : Relays)
      → IsKeyed bridges
      → DistinctKeys bridges
      → named acct (only_bridges c now r bridges) ≡ (elim (lookup acct r.relays) [
        | some v ↦ []
        | none ↦ to_list (elim (lookup acct bridges) [
          | none ↦ none
          | some b ↦ some (bridge_with_record c now r.gossip b)
        ])
      ])
  unfolding named only_bridges lookup
  named-only_bridges acct r [] k d = elim (Option-cases (lookup acct r.relays)) [
    | inl o ↦ rw o refl
    | inr (v, o) ↦ rw o refl
  ]
  named-only_bridges acct r ((a, b) ∷ bridges) (k, ks) (f, d) =
      let rest = named-only_bridges acct r bridges ks d in
      elim (Bool-cases (str_eq b.account acct)) [
        | inl e ↦
            let same : b.account ≡ acct = ground (arith, e, eq_iff b.account acct) in
            let at : lookup b.account r.relays ≡ lookup acct r.relays =
              ap (λ x. lookup x r.relays) same in
            let gone : lookup acct bridges ≡ none =
              ap (λ x. lookup x bridges) (sym (k ∙ same)) ∙ f in
            elim (Option-cases (lookup acct r.relays)) [
              | inl o ↦ ground (arith, o, at, e, k, rest, gone, bridge_account r.gossip b)
              | inr (v, o) ↦ ground (arith, o, at, e, k, rest)
            ]
        | inr e ↦ elim (Option-cases (lookup b.account r.relays)) [
          | inl p ↦ ground (arith, p, e, k, rest, bridge_account r.gossip b)
          | inr (v, p) ↦ ground (arith, p, e, k, rest)
        ]
      ]

  named-gossip_relays :
      (acct : String) (r : Registry) (table : Table)
      → All (λ e. e.0 ≡ e.1.account) table
      → DistinctKeys table
      → named acct (gossip_relays c now r table) ≡ (elim (lookup acct r.relays) [
        | some v ↦ []
        | none ↦ elim (lookup acct r.bridges) [
          | some b ↦ []
          | none ↦ to_list (elim (lookup acct table) [ none ↦ none | some rec ↦ said_by c now rec ])
        ]
      ])
  unfolding named gossip_relays lookup
  named-gossip_relays acct r [] k d = ground arith
  named-gossip_relays acct r ((a, rec) ∷ table) (k, ks) (f, d) =
      let rest = named-gossip_relays acct r table ks d in
      let own : (ri : RelayInfo)
          → said_by c now rec ≡ some ri
          → str_eq ri.account acct ≡ str_eq a acct =
        λ ri o. ap (λ x. str_eq x acct) (said_by-account rec ri o ∙ sym k) in
      elim (Bool-cases (str_eq a acct)) [
        | inl e ↦
            let same : a ≡ acct = ground (arith, e, eq_iff a acct) in
            let at : lookup a r.relays ≡ lookup acct r.relays = ap (λ x. lookup x r.relays) same in
            let by : lookup a r.bridges ≡ lookup acct r.bridges =
              ap (λ x. lookup x r.bridges) same in
            let gone : lookup acct table ≡ none = fresh_here a acct table f e in
            elim (Option-cases (said_by c now rec)) [
              | inl o ↦ ground (arith, o, e, rest, gone, at, by)
              | inr (ri, o) ↦ ground (arith, o, e, rest, gone, at, by, own ri o)
            ]
        | inr e ↦ elim (Option-cases (said_by c now rec)) [
          | inl o ↦ ground (arith, o, e, rest)
          | inr (ri, o) ↦ ground (arith, o, e, rest, own ri o)
        ]
      ]

-- For every account, `All` lists just the relay that `Get` answers, once, or none when `Get` answers none:
-- what the ledger says with the address of a bridge line, what a bridge line says with the signed record,
-- or what a record alone says. Every entry of the three tables stands at its own account, and each table
-- has distinct keys.
pub named-all :
    (c : Crypto) (now : ℕ) (acct : String) (r : Registry)
    → IsKeyed r.relays
    → IsKeyed r.bridges
    → All (λ e. e.0 ≡ e.1.account) r.gossip
    → DistinctKeys r.relays
    → DistinctKeys r.bridges
    → DistinctKeys r.gossip
    → named acct (all c now r) ≡ to_list (get c now acct r)
unfolding all get listed_as
named-all c now acct r k b g kd bd gd =
    let front =
      named-append acct (listed r.bridges r.relays)
        (only_bridges c now r r.bridges ++ gossip_relays c now r r.gossip) in
    let back =
      named-append acct (only_bridges c now r r.bridges) (gossip_relays c now r r.gossip) in
    let first = named-listed acct r.bridges r.relays k kd in
    let second = named-only_bridges c now acct r r.bridges b bd in
    let third = named-gossip_relays c now acct r r.gossip g gd in
    elim (Option-cases (lookup acct r.relays)) [
      | inr (v, o) ↦
          let own : lookup v.account r.bridges ≡ lookup acct r.bridges =
            ap (λ x. lookup x r.bridges) (sym (keyed_account acct r.relays v k o)) in
          elim (Option-cases (lookup acct r.bridges)) [
            | inl p ↦ ground (arith, front, back, first, second, third, o, own, p)
            | inr (x, p) ↦ ground (arith, front, back, first, second, third, o, own, p)
          ]
      | inl o ↦ elim (Option-cases (lookup acct r.bridges)) [
        | inr (x, p) ↦ ground (arith, front, back, first, o, second, third, p)
        | inl p ↦ ground (arith, front, back, first, o, second, third, p)
      ]
    ]
