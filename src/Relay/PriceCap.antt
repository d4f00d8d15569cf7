-- ===== src/Relay/PriceCap.antt =====
-- sail/relay/pricecap.go: how much a relay prepays its next hop.
pub mod Median
use Prim.Native.String.{String}
use text.Mathlib.Text.{◌==◌ as str_eq}
use sailnet.Common.{ℕ, zero, suc, ◌+◌, ◌-◌, ◌*◌, ◌/◌, List, [], ◌∷◌, Bool, true, false, ◌&&◌, ◌||◌}
use sailnet.Common.{ltb, leb, ◌==◌, if◌then◌else◌, length, Option, none, some, drop}

-- `sort.Ints`, as insertion sort.
pub insert_sorted : ℕ → List ℕ → List ℕ
insert_sorted x [] = x ∷ []
insert_sorted x (y ∷ r) = if leb x y then x ∷ (y ∷ r) else y ∷ insert_sorted x r

pub sort : List ℕ → List ℕ
unfolding insert_sorted
sort [] = []
sort (x ∷ r) = insert_sorted x (sort r)

-- A peer of the registry: its price, and whether it was heard of or reached within three hours.
pub record Peer : Type 0 where
  pub account : String
  pub min_rate : ℕ
  pub seen_lately : Bool
  pub reached_lately : Bool

pub record Server : Type 0 where
  pub max_next_rate : ℕ
  pub registry : Option (List Peer)
  pub address : Option String

-- Peers without a price, and this relay itself, are passed over.
pub counts : Option String → Peer → Bool
counts address p = elim address [
  | none ↦ ltb 0 p.min_rate
  | some a ↦ ltb 0 p.min_rate && (if str_eq p.account a then false else true)
]

-- The lists `all` and `live` of the loop.
pub all_rates : Option String → List Peer → List ℕ
unfolding counts
all_rates address [] = []
all_rates address (p ∷ r) =
    if counts address p then p.min_rate ∷ all_rates address r else all_rates address r

pub live_rates : Option String → List Peer → List ℕ
unfolding counts
live_rates address [] = []
live_rates address (p ∷ r) =
    if counts address p && (p.seen_lately || p.reached_lately)
    then p.min_rate ∷ live_rates address r
    else live_rates address r

abbrev pub nth : ℕ → List ℕ → ℕ
nth i [] = 0
nth zero (x ∷ r) = x
nth (suc i) (x ∷ r) = nth i r

pub median : List ℕ → ℕ
unfolding sort
median rates = nth (length rates / 2) (sort rates)

abbrev pub cap_multiple : ℕ
cap_multiple = 5

abbrev pub max_uint32 : ℕ
max_uint32 = 4294967295

-- The cap over the rates that were chosen; the product is a uint64, and a rate is a uint32.
pub cap_of : List ℕ → ℕ
unfolding median
cap_of [] = 0
cap_of (x ∷ r) = let c = median (x ∷ r) * cap_multiple in if ltb max_uint32 c then max_uint32 else c

pub next_hop_cap : Server → ℕ
unfolding all_rates live_rates cap_of
next_hop_cap s = if ltb 0 s.max_next_rate then s.max_next_rate else (elim s.registry [
  | none ↦ 0
  | some peers ↦
      let live = live_rates s.address peers in
      cap_of (if ltb (length live) 4 then all_rates s.address peers else live)
])

pub over_priced : Server → Option Peer → Bool × ℕ
unfolding next_hop_cap
over_priced s none = (false, 0)
over_priced s (some rel) = let c = next_hop_cap s in (ltb 0 c && ltb c rel.min_rate, c)

-- `base` is nil or an amount.
pub cap_top_up : ℕ → Option ℕ → ℕ → ℕ
cap_top_up amount base avail =
    let half = avail / 2 in
    let limit : ℕ = elim base [ none ↦ half | some b ↦ if ltb half b then b else half ] in
    let capped = if ltb limit amount then limit else amount in
    if ltb avail capped then avail else capped
