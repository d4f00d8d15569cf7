-- ===== src/Relay/Server/Metering/Batch.antt =====
-- sail/relay/server.go: what a batch costs, and what is done on a spent quota.
use Prim.Native.String.{String}
use text.Mathlib.Text.{◌==◌ as str_eq}
use sailnet.Common.{ℕ, ◌≡◌, ◌≢◌, ◌⊎◌, ◌==◌}
use sailnet.Common.{List, true, false, Option, some}
use sailnet.Common.{signed_lt}
use sailnet.Wire.Cell.{Cell}
use sailnet.Wire.Onion.{Aead}
use sailnet.Relay.Quota.{Quota, owner_of}
use sailnet.Relay.Server.Circuit.{Circuit}
use sailnet.Relay.Server.Metering.{Action, is_listed}
use sailnet.Relay.Server.Metering.Served.{NoService}

abbrev Ended : Circuit × List Action → Type 0
Ended r = (r.0.closed ≡ true) × NoService r.1

module _ (key : String → String) (a : Aead) where
  -- What is left, `rem`, lies within the overdraft of 128 MiB of the pool of a relay that is listed.
  pub record IsLent (relays : List String) (q : Quota) (tag : String) (rem : ℕ) : Type 0 where
    pub within : signed_lt rem 18446744073575333888 ≡ false
    pub owned : owner_of key q tag ≢ ""
    pub listed : is_listed (owner_of key q tag) relays ≡ true

-- The circuits lead to the same next hop and pool, and are both open or both closed.
abbrev SamePath : Circuit → Circuit → Type 0
SamePath c d = (d.next ≡ c.next) × (d.pool_acct ≡ c.pool_acct) × (d.closed ≡ c.closed)

module _ (key : String → String) (a : Aead) where
  -- The quota holds, or the overdraft covers what is missing.
  abbrev pub IsCovered : Option (List String) → Quota → String → ℕ → Type 0
  IsCovered registry q tag rem =
      (signed_lt rem 0 ≡ false)
      ⊎ ((relays : List String) × (registry ≡ some relays) × IsLent key a relays q tag rem)
