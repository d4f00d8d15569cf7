-- ===== src/Relay/Gossip/Table.antt =====
-- sail/relay/gossip.go: what the table of gossiped records holds.
use Prim.Native.String.{String}
use text.Mathlib.Text.{◌==◌ as str_eq}
use sailnet.Common.{ℕ, ◌≤◌, ◌≡◌, refl, arith, List, [], ◌∷◌, true, false, not, ◌||◌}
use sailnet.Common.{if_both, length, All, Option, none, some, Option-cases, inl, inr, ◌⊎◌}
use mathlib.Core.Path.{subst}
use sailnet.Common.{Bytes, ◌==◌, take, ◌<◌, ◌+◌, ◌-◌, ◌*◌, half_word, word, false}
use sailnet.Relay.Gossip.{
  digest, read_descriptor, described, decode_descriptor, empty_descriptor, is_signed, is_early,
  SignedRecord, RelayInfo, Crypto, Verdict, Refusal, refused, describes, verify_record, Table,
  is_inner, add_gossip, records, is_old,
}

pub Verdict-cases :
    (v : Verdict) → ((e : Refusal) × (v ≡ refused e)) ⊎ ((ri : RelayInfo) × (v ≡ describes ri))
Verdict-cases (refused e) = inl (e, refl)
Verdict-cases (describes ri) = inr (ri, refl)

-- A verdict on a record speaks of the account of the record.
abbrev Names : String → Verdict → Type 0
Names a (refused e) = Unit
Names a (describes ri) = ri.account ≡ a

read_descriptor-Names :
    (now : ℕ) (r : SignedRecord) (key : Bytes) (o : Option Bytes)
    → Names r.account (read_descriptor now r key o)
unfolding read_descriptor described
read_descriptor-Names now r key none = tt
read_descriptor-Names now r key (some a) =
    if_both (Names r.account) (not (length a == 12)) tt
      (elim (decode_descriptor a)
        as (λ d. Names r.account (elim d [
          | none ↦ refused empty_descriptor
          | some x ↦ describes (described now r key x)
        ])) [ none ↦ tt | some d ↦ refl ])

pub describes_account :
    (c : Crypto) (now : ℕ) (r : SignedRecord) (ri : RelayInfo)
    → verify_record c now r ≡ describes ri
    → ri.account ≡ r.account
unfolding verify_record
describes_account c now r ri h = elim (Option-cases (c.address_to_pubkey r.account)) [
  | inl o ↦ absurd (ground (arith, h, o))
  | inr (key, o) ↦
      let names : Names r.account (verify_record c now r) =
        rw (verify_record, o)
          (if_both (Names r.account) (not (is_signed c r key)) tt (
            if_both (Names r.account) (is_old now r.time || is_early now r.time) tt
              (read_descriptor-Names now r key (c.of_hex r.desc)))) in
      subst (Names r.account) h names
]

-- What happens to a table: a record is offered to it, or its records are asked for.
pub data Event : Type 0 where
  adds : ℕ → SignedRecord → Event
  hands_out : ℕ → Option SignedRecord → Event

-- The age of a record at `now`: at most 48 hours old, and at most ten minutes ahead of the clock; its time
-- is an int64 of seconds, below zero from 2 ^ 63 on.
pub IsFresh : ℕ → ℕ → Type 0
IsFresh now t =
    ((t < half_word)
      × (now ≤ t * 1000000000 + 172800000000000)
      × (t * 1000000000 ≤ now + 600000000000))
    ⊎ ((half_word ≤ t) × (now + (word - t) * 1000000000 ≤ 172800000000000))

-- The event offers the record at that time.
pub WasOffered : ℕ → SignedRecord → List Event → Type 0
WasOffered now rec [] = ⊥
WasOffered now rec (e ∷ es) = (e ≡ adds now rec) ⊎ WasOffered now rec es

module _ (c : Crypto) where
  unfoldable pub step : Event → Table → Table
  step (adds now rec) t = (add_gossip c now rec t).0
  step (hands_out now self) t = (records now self t).0

  unfoldable pub run : Table → List Event → Table
  run t [] = t
  run t (e ∷ es) = run (step e t) es

  -- A record that is the fresh and signed word of its account, with an address on the open network: its
  -- signature verifies over its digest under the key of its account.
  pub record IsVouched (now : ℕ) (rec : SignedRecord) : Type 0 where
    pub key : Bytes
    pub is_key : c.address_to_pubkey rec.account ≡ some key
    pub sig : Bytes
    pub is_sig : c.of_hex rec.sig ≡ some sig
    pub is_signed : c.verify key (digest c rec) sig ≡ true
    pub is_fresh : IsFresh now rec.time
    pub desc : Bytes
    pub is_desc : c.of_hex rec.desc ≡ some desc
    pub desc_size : length desc ≡ 12
    pub is_open : is_inner (take 4 desc) ≡ false

  -- What a table holds when records come from `offers`.
  abbrev pub IsSound : List Event → Table → Type 0
  IsSound offers t =
      (length t ≤ 500)
      × All (λ x. (x.0 ≡ x.1.account) × ((now : ℕ) × WasOffered now x.1 offers × IsVouched now x.1))
          t

  module _ (offers : List Event) where
    abbrev Holds : String × SignedRecord → Type 0
    Holds x = (x.0 ≡ x.1.account) × ((now : ℕ) × WasOffered now x.1 offers × IsVouched now x.1)

    -- Every record that the events offer is one of `offers`.
    Among : List Event → Type 0
    Among es = (now : ℕ) (rec : SignedRecord) → WasOffered now rec es → WasOffered now rec offers
