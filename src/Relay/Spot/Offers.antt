-- ===== src/Relay/Spot/Offers.antt =====
-- sail/relay/spot.go: the price of an offer.
use Prim.Native.String.{String}
use sailnet.Common.{ℕ, ◌+◌, ◌-◌, ◌*◌, ◌/◌, ◌≤◌, ◌<◌, ◌≡◌, ◌≢◌, arith, true, false}
use sailnet.Common.{Option, some, List, Bytes, half_word}
use sailnet.Relay.Spot.{u32_mod, spot_decision, Offer, price_now, SpotOffer, spot_for, rep_bonus}
use sailnet.Relay.Spot.{is_member}

-- An offer is always a real discount: it is above zero and below the published price, and it is made
-- only while the load is under the operator's threshold.
pub spot_decision_lower :
    (load below discount published : ℕ) {rate : ℕ}
    → spot_decision load below discount published ≡ some rate
    → (0 < rate) × (rate < published) × (load < below)
unfolding spot_decision
spot_decision_lower load below discount published e = ground arith

-- Where the product fits a uint32, the offer is the published price less the discount, rounded down.
pub spot_decision_exact :
    (load below discount published : ℕ) {rate : ℕ}
    → published * (100 - discount) < u32_mod
    → spot_decision load below discount published ≡ some rate
    → rate ≡ published * (100 - discount) / 100
unfolding spot_decision
spot_decision_exact load below discount published h e = ground arith

-- Where it does not fit, the offer is far too low: it loses at least 42949672 units against the price
-- that the discount means.
pub spot_decision_wraps :
    (load below discount published : ℕ) {rate : ℕ}
    → u32_mod ≤ published * (100 - discount)
    → spot_decision load below discount published ≡ some rate
    → rate + 42949672 ≤ published * (100 - discount) / 100
unfolding spot_decision
spot_decision_wraps load below discount published h e = ground arith

-- The price that a client pays is never above the published one, and below it only for an offer that
-- stands for two minutes more at least.
pub price_now_bounds :
    (o : Offer) (now : ℕ)
    → (price_now o now ≤ o.min_rate)
      × (price_now o now < o.min_rate
          → (price_now o now ≡ o.spot_rate) × (now + 120 < o.spot_until))
unfolding price_now
price_now_bounds o now = (ground arith, λ h. ground arith)

-- An offer in a record is taken up exactly when the relay signed it, it is below the published price
-- but not zero, and it stands, for three hours at most.
pub spot_for_iff :
    (o : SpotOffer) (min_rate now : ℕ)
    → (spot_for (some o) min_rate now ≡ (o.rate, o.until)
        → o.rate ≢ 0
        → (o.signed ≡ true) × (o.rate < min_rate) × (now < o.until) × (o.until ≤ now + 10800))
      × ((o.signed ≡ true)
          → o.rate ≢ 0
          → o.rate < min_rate
          → now < o.until
          → o.until ≤ now + 10800
          → spot_for (some o) min_rate now ≡ (o.rate, o.until))
unfolding spot_for
spot_for_iff o min_rate now = (λ e n. ground arith, λ a b c d e. ground arith)

-- The bonus only ever adds bytes, in the given percent, and only for a payer whose representative is
-- a friend and no operation. The bytes and the percentage keep the product within an int64.
pub rep_bonus_adds :
    (decode : String → Option Bytes) (bonus : ℕ) (friends : List String) (n : ℕ) (rep : String)
    → n + n * bonus < half_word
    → let (m, given) = rep_bonus decode bonus friends n rep in
      (given ≡ false → m ≡ n)
      × (given ≡ true → (m ≡ n + n * bonus / 100) × (is_member rep friends ≡ true))
unfolding rep_bonus
rep_bonus_adds decode bonus friends n rep h = (ground arith, ground arith)
