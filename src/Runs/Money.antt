-- ===== src/Runs/Money.antt =====
-- sail/relay: a peer's claims, payments on the ledger, top-ups and a CREATE.
use Prim.Native.String.{String}
use text.Mathlib.TextEquality.{eq_iff}
use sailnet.Common.{
  ◌+◌, ◌*◌, ◌≤◌, ◌≡◌, ◌≢◌, refl, arith, List, [], ◌∷◌, true, false, none, some, Bytes,
}
use sailnet.Common.{add64, lookup, bytes_eq, replicate}
use sailnet.Relay.Quota.{no_quota, at, remaining, known, owner_of, credit, add}
use sailnet.Relay.Pairing.{Crypto, missing as disk_missing, owner_create, pairing_create}
use sailnet.Relay.Server.Verify.{fresh}
use sailnet.Relay.Server.Create.{
  Front, Settings, World, opened, handle_create, free_rides, check_owner,
}
use sailnet.Relay.Server.Create.Admitted.{handle_create_sound}
use sailnet.Relay.Server.Pools.{Pool, Config, new_pool, ensure, pool_cost}
use sailnet.Relay.Server.Pools.Claims.{Event, claimed, charges, charges_bounds}
use sailnet.Relay.Server.Pools.Flight.{IsSingle, opens, wants, one_if, Reach-IsSingle}
use sailnet.Relay.Server.Payment.{BlockInfo, found, missing, Till, Terms, floor_credit}
use sailnet.Relay.Server.Payment.Floor.{run, floor_once_a_day}
use sailnet.Relay.Server.Payment.Sound.{Honours, credit_from_ledger_sound}
use sailnet.Relay.Server.TopUp.{Supplied, published, handle_top_up, check_top_up, move_bytes}
use sailnet.Relay.Server.TopUp.Net.{Nets, handle_top_up-Nets}
use sailnet.Relay.Server.TopUp.Race.{top_up_race}

abbrev prepaying : Config
prepaying = record { pool_raw = some 1000000000000000000000000000000; pool_bytes = 0 }

abbrev peer_pool : Pool
peer_pool = new_pool (65 ∷ [])

abbrev two_claims : List Event
two_claims = claimed 1 [] 100 ∷ claimed 1 [] 200 ∷ []

charges_bounds_example :
    charges prepaying peer_pool two_claims * 3600000000000 + 100 ≤ 200 + 2 * 3600000000000
charges_bounds_example =
    charges_bounds prepaying 100 200 peer_pool two_claims refl
      (omega arith, (omega arith, omega arith))

Reach-IsSingle_example :
    (0 + one_if (ensure prepaying 1 50 peer_pool).1 ≤ 1)
    × IsSingle (ensure prepaying 1 50 peer_pool).0 (0 + one_if (ensure prepaying 1 50 peer_pool).1)
Reach-IsSingle_example = Reach-IsSingle {c = prepaying} (wants 1 50 (opens (65 ∷ [])))

its_cost : pool_cost prepaying 1 ≡ some 1000000000000000000000000000000
unfolding pool_cost
its_cost = refl

abbrev terms : Terms
terms = record {
  has_ledger = true;
  address = "nano_us";
  min_credit = 1000;
  rate = 10;
  rep_bonus_pct = 0;
  friends = [];
}

abbrev till : Till
till = record { quota = no_quota 10; welcome = [] }

abbrev payment : BlockInfo
payment = record {
  subtype = "send";
  link_as_account = "nano_us";
  link_address = "";
  representative = "nano_rep";
  confirmed = "true";
  amount = some 7000;
  account = "nano_payer";
}

credit_from_ledger_sound_example :
    Honours (λ t. t) (λ a. none) (λ a. some "aa") terms 1 "AB" (found payment) till
credit_from_ledger_sound_example =
    credit_from_ledger_sound (λ t. t) (λ a. none) (λ a. some "aa") terms 1 "AB" (found payment) till

raised : (floor_credit 1000 7 "aa" 10 []).1 ≢ 10
unfolding floor_credit lookup
raised = ground (arith, eq_iff "aa" "")

floor_once_a_day_example :
    (floor_credit 1000 7 "aa" 20 (run 1000 7 (("bb", 5) ∷ []) (floor_credit 1000 7 "aa" 10 []).0)).1
    ≡ 20
floor_once_a_day_example = floor_once_a_day 1000 7 10 20 "aa" (("bb", 5) ∷ []) [] raised

abbrev open_till : Till
open_till = record till { quota = record till.quota { credit = ("AB", 500) ∷ [] } }

abbrev block : Supplied
block = record { signed = true; link = 1 ∷ []; account_hex = "aa"; hash = "CD" }

abbrev itself : String → String
itself t = t

apart : itself "CD" ≢ itself "AB"
apart = λ e. cc ((eq_iff "CD" "AB").1 e)

handle_top_up-Nets_example :
    Nets
      (λ t. t)
      "AB"
      "CD"
      500
      0
      (handle_top_up
        (λ t. t)
        (λ a. none)
        (λ a. none)
        terms
        (1 ∷ [])
        1
        "AB"
        0
        (some block)
        published
        (λ i. missing)
        (λ i s. s)
        open_till)
unfolding lookup
handle_top_up-Nets_example =
    handle_top_up-Nets (λ t. t) (λ a. none) (λ a. none) terms (1 ∷ []) 1 "AB" 0 block published
      (λ i. missing) (λ i s. s) open_till 500 apart (λ i s. (refl, refl)) refl (omega arith)
      (omega arith)

passes : check_top_up (λ t. t) terms (1 ∷ []) "AB" (some block) open_till.quota ≡ none
unfolding check_top_up bytes_eq owner_of known lookup
passes = ground (arith, eq_iff "CD" "AB", eq_iff "AB" "CD")

top_up_race_example :
    let both = (add (λ t. t) (add (λ t. t) open_till.quota "AB" 100).0 "AB" 100).0 in
    let paid = (credit (λ t. t) both "CD" 7000 "aa").0 in
    let bytes = remaining (λ t. t) paid "CD" in
    let one = (move_bytes (λ t. t) "AB" "CD" 100 bytes paid).0 in
    at "AB" (move_bytes (λ t. t) "AB" "CD" 100 bytes one).0.credit ≡ add64 (add64 500 bytes) bytes
unfolding lookup
top_up_race_example =
    (top_up_race (λ t. t) terms (1 ∷ []) "AB" "aa" 100 100 500 7000 block open_till.quota apart refl
      (omega arith) (omega arith) (omega arith) passes).1

abbrev no_crypto : Crypto
no_crypto = record {
  owner_tag = λ r o. [];
  pairing_tag = λ r w. [];
  verify_create = λ o p t s. false;
  to_hex = λ b. "";
  quota_key = λ t. t;
}

abbrev front : Front
front = record {
  door = record {
    pairing_path = false;
    disk = disk_missing;
    owner = none;
    owners = [];
    owners_path = false;
    owners_disk = [];
    quota = none;
    relay_key = none;
  };
  quota = open_till.quota;
  welcome = [];
  verifier = fresh;
}

abbrev settings : Settings
settings = record {
  terms = terms;
  public = 1 ∷ [];
  is_bridge = false;
  bootstrap = 0;
  registry = none;
}

abbrev world : World
world = record {
  now = 0;
  unix = 0;
  ip = "1.2.3.4";
  supplied = none;
  hash_is_tag = false;
  process = published;
  replies = λ i. missing;
  others = λ i s. s;
}

abbrev create_payload : Bytes
unfolding replicate
create_payload = replicate 128 0

is_opened :
    (handle_create no_crypto
      (λ a. none)
      (λ a. none)
      (λ h. none)
      settings
      world
      "AB"
      create_payload
      front).1
    ≡ opened
unfolding handle_create free_rides check_owner owner_create pairing_create known owner_of remaining
    lookup create_payload
is_opened = ground arith

handle_create_sound_example :
    known
      (λ t. t)
      (handle_create no_crypto
        (λ a. none)
        (λ a. none)
        (λ h. none)
        settings
        world
        "AB"
        create_payload
        front).0.quota
      "AB"
    ≡ true
handle_create_sound_example =
    (handle_create_sound no_crypto (λ a. none) (λ a. none) (λ h. none) settings world "AB"
      create_payload front is_opened).1
