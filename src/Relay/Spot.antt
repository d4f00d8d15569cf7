-- ===== src/Relay/Spot.antt =====
-- sail/relay/spot.go, repbonus.go, and the client's reading of an offer in registry.go and gossip.go.
-- Times are unix seconds, prices uint32s.
pub mod Offers
pub mod Windows
use Prim.Native.String.{String}
use text.Mathlib.Text.{◌==◌ as str_eq}
use sailnet.Common.{ℕ, ◌+◌, ◌-◌, ◌*◌, ◌/◌, ◌%◌, List, [], ◌∷◌, ◌++◌, Bool, true, false, not}
use sailnet.Common.{◌&&◌, ◌||◌, ltb, leb, ◌==◌, if◌then◌else◌, length, drop, Option, none, some}
use sailnet.Common.{Bytes, byte_at, add64, mul64, div64, positive}

abbrev pub spot_window : ℕ
spot_window = 1800

abbrev pub spot_renew : ℕ
spot_renew = 600

abbrev pub u32_mod : ℕ
u32_mod = 4294967296

-- `spotDecision`; the product is a uint32.
pub spot_decision : ℕ → ℕ → ℕ → ℕ → Option ℕ
spot_decision load_pct below discount published =
    let rate = published * (100 - discount) % u32_mod / 100 in
    if discount == 0 || (leb 100 discount || (below == 0 || (published == 0 || leb below load_pct)))
    then none
    else (if rate == 0 || leb published rate then none else some rate)

-- `spotState`. A load is a float64; what the code does with it is a parameter of `sample_spot`.
pub record SpotState (Load : Type 0) : Type 0 where
  pub rate : ℕ
  pub until : ℕ
  pub last : ℕ
  pub primed : Bool
  pub loads : List Load

-- The offer in force: `currentSpot`.
pub current_spot : {Load : Type 0} → SpotState Load → ℕ → ℕ × ℕ
current_spot s now = if s.rate == 0 || leb s.until now then (0, 0) else (s.rate, s.until)

-- The operator's settings: the published price, if there is a record of our own.
pub record Settings : Type 0 where
  pub self_rate : Option ℕ
  pub capacity : ℕ
  pub spot_discount : ℕ
  pub spot_below : ℕ

-- The price in raw that a payment arriving now is credited at.
pub rate_now : {Load : Type 0} → (ℕ → ℕ) → ℕ → SpotState Load → ℕ → ℕ
unfolding current_spot
rate_now rate_to_raw min_rate s now =
    let (rate, until) = current_spot s now in if ltb 0 rate then rate_to_raw rate else min_rate

-- The last five samples.
pub push_load : {Load : Type 0} → List Load → Load → List Load
push_load ls l =
    let all = ls ++ (l ∷ []) in if ltb 5 (length all) then drop (length all - 5) all else all

module _ {Load : Type 0} (load : ℕ → ℕ → Load) (mean_pct : List Load → ℕ) where
  -- The state with the sample of the counter `cur` taken.
  pub sampled : SpotState Load → ℕ → SpotState Load
  unfolding push_load
  sampled s cur = record s {
    last = cur;
    primed = true;
    loads = if s.primed then push_load s.loads (load cur s.last) else s.loads;
  }

  -- The offer that follows from the samples, for the published price.
  pub renew_offer : Settings → ℕ → SpotState Load → ℕ → SpotState Load
  unfolding spot_decision
  renew_offer set published s now =
      let standing = ltb 0 s.rate && ltb now s.until in
      elim (spot_decision (mean_pct s.loads) set.spot_below set.spot_discount published) [
        | none ↦ if standing then s else record s { rate = 0; until = 0 }
        | some rate ↦ record s { rate = rate; until = now + spot_window }
      ]

  pub sample_spot : Settings → SpotState Load → ℕ → ℕ → SpotState Load
  unfolding sampled renew_offer
  sample_spot set s cur now = elim set.self_rate [
    | none ↦ s
    | some published ↦
        let s' = sampled s cur in
        let standing = ltb 0 s.rate && ltb now s.until in
        if set.capacity == 0 || set.spot_discount == 0 then s else (elim s'.loads [
          | [] ↦ s'
          | l ∷ ls ↦
              if standing && ltb (now + spot_renew) s.until
              then s'
              else renew_offer set published s' now
        ])
  ]

-- `PriceNow`, for a peer's record.
pub record Offer : Type 0 where
  pub min_rate : ℕ
  pub spot_rate : ℕ
  pub spot_until : ℕ

pub price_now : Offer → ℕ → ℕ
price_now o now =
    if ltb 0 o.spot_rate && (ltb o.spot_rate o.min_rate && ltb (now + 120) o.spot_until)
    then o.spot_rate
    else o.min_rate

-- `spotFor`: the offer in a record, `signed` saying whether its signature is the relay's own.
pub record SpotOffer : Type 0 where
  pub rate : ℕ
  pub until : ℕ
  pub signed : Bool

pub spot_for : Option SpotOffer → ℕ → ℕ → ℕ × ℕ
spot_for none min_rate now = (0, 0)
spot_for (some o) min_rate now =
    if o.rate == 0 || (leb min_rate o.rate || (leb o.until now || ltb (now + 10800) o.until))
    then (0, 0)
    else (if o.signed then (o.rate, o.until) else (0, 0))

-- `repBonus`: a representative that carries an operation is no vote.
unfoldable pub tagged_rep : Bytes → Bool
tagged_rep rep = byte_at 0 rep == 0x53 && (byte_at 1 rep == 0x41 && byte_at 2 rep == 1)

unfoldable pub is_member : String → List String → Bool
is_member a [] = false
is_member a (b ∷ r) = str_eq b a || is_member a r

module _ (address_to_pubkey : String → Option Bytes) where
  unfoldable pub rep_bonus : ℕ → List String → ℕ → String → ℕ × Bool
  unfolding tagged_rep is_member
  rep_bonus bonus friends n rep =
      if bonus == 0 || (length friends == 0 || (str_eq rep "" || not (positive n)))
      then (n, false)
      else (elim (address_to_pubkey rep) [
        | none ↦ (n, false)
        | some pub_key ↦
            if tagged_rep pub_key || not (is_member rep friends)
            then (n, false)
            else (add64 n (div64 (mul64 n bonus) 100), true)
      ])
