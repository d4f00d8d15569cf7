-- ===== src/Relay/Spot/Windows.antt =====
-- sail/relay/spot.go: the windows of the offers.
use sailnet.Common.{ℕ, ◌+◌, ◌-◌, ◌≤◌, ◌<◌, ◌≡◌, ◌≢◌, arith}
use sailnet.Common.{some, List, [], ◌∷◌, ◌++◌, length, length-append, length-drop}
use sailnet.Relay.Spot.{spot_window, spot_renew, spot_decision, SpotState, current_spot, Settings}
use sailnet.Relay.Spot.{sampled, sample_spot}

module _ {Load : Type 0} (load : ℕ → ℕ → Load) (mean_pct : List Load → ℕ) where
  -- A window that has more than ten minutes left is left alone: whatever the load, the offer in force
  -- stays the same.
  pub sample_spot_keeps :
      (set : Settings) (s : SpotState Load) (cur now : ℕ)
      → s.rate ≢ 0
      → now + spot_renew < s.until
      → current_spot (sample_spot load mean_pct set s cur now) now ≡ (s.rate, s.until)
  unfolding sample_spot current_spot
  sample_spot_keeps set s cur now r h = ground arith

  -- In the last ten minutes of a window an offer is signed anew while the relay is idle, at the price
  -- that follows from the price published by then; the price before is gone, though its window stands.
  pub sample_spot_replaces :
      (set : Settings) (s : SpotState Load) (cur now published rate : ℕ) (l : Load) (ls : List Load)
      → set.self_rate ≡ some published
      → set.capacity ≢ 0
      → set.spot_discount ≢ 0
      → (sampled load mean_pct s cur).loads ≡ l ∷ ls
      → s.until ≤ now + spot_renew
      → spot_decision (mean_pct (l ∷ ls)) set.spot_below set.spot_discount published ≡ some rate
      → rate ≢ 0
      → current_spot (sample_spot load mean_pct set s cur now) now ≡ (rate, now + spot_window)
  unfolding sample_spot current_spot
  sample_spot_replaces set s cur now published rate l ls p c d r late e n = ground arith

  -- No more than five samples are kept.
  pub sample_spot_loads :
      (set : Settings) (s : SpotState Load) (cur now : ℕ)
      → length s.loads ≤ 5
      → length (sample_spot load mean_pct set s cur now).loads ≤ 5
  unfolding sample_spot
  sample_spot_loads set s cur now h =
      let all = s.loads ++ (load cur s.last ∷ []) in
      ground (arith, length-append s.loads (load cur s.last ∷ []), length-drop (length all - 5) all)
