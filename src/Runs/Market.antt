-- ===== src/Runs/Market.antt =====
-- sail/relay and sail/token: prices, rewards and the registry.
use Prim.Native.String.{String}
use text.Mathlib.TextEquality.{eq_iff}
use sailnet.Common.{
  put_uint64, ℕ, ◌*◌, ◌/◌, ◌≤◌, ◌≡◌, refl, List, [], ◌∷◌, true, false, some, Bytes, lookup, ltb,
}
use sailnet.Relay.Pricing.{Float64, Pricing}
use sailnet.Relay.Spot.{Offer}
use sailnet.Relay.Rewards.{EpochRelay, Relays, receives, compute_payouts, pay_loop}
use sailnet.Relay.Rewards.Cap.{payouts_are_capped}
use sailnet.Relay.Rewards.Levy.{ledger_after, pay_twice}
use sailnet.Token.Ops.{absent, encode, pack, fill_bytes}
use sailnet.Token.Registry.{new_state, Event, apply, build, CachedSend}
use sailnet.Token.Registry.Fold.{apply_commute, build_alive}

-- Fractions for floats.
abbrev fractions : Float64
fractions = record {
  Float = ℕ × ℕ;
  of_int = λ n. (n, 1);
  literal = λ a b. (a, b);
  times = λ x y. (x.0 * y.0, x.1 * y.1);
  less = λ x y. ltb (x.0 * y.1) (y.0 * x.1);
  to_uint32 = λ x. x.0 / x.1;
}

abbrev priced : Pricing
priced = record {
  days = 10;
  min = 100;
  max = 400;
  st = record {
    rate = 200;
    start = 200;
    window_start = 1000;
    start_bytes = 0;
    prev_bytes = 500;
    windows = 1;
  };
}

abbrev two_ticks : List (ℕ × ℕ)
two_ticks = (900000, 2000) ∷ (1900000, 2500) ∷ []

abbrev prices : List ℕ
prices = 100 ∷ 90000 ∷ 120 ∷ []

abbrev offer : Offer
offer = record { min_rate = 200; spot_rate = 150; spot_until = 5000 }

abbrev row : ℕ → EpochRelay
row levy = record { earned = levy * 10; levy_owed = levy; paid = 0; paid_to = [] }

abbrev three_relays : Relays
three_relays =
    ("a", row 100000000000000000000000000)
    ∷ ("b", row 9000000000000000000000000)
    ∷ ("c", row 50000000000000000000000000)
    ∷ []

payouts_are_capped_example :
    receives "b" (compute_payouts (λ from to. 30000000000000000000000000) three_relays).1
    ≤ 9000000000000000000000000 * 80 / 100
unfolding lookup
payouts_are_capped_example =
    payouts_are_capped (λ from to. 30000000000000000000000000) "b" (row 9000000000000000000000000)
      three_relays refl

abbrev shares : List (String × ℕ)
shares = ("b", 5000000000000000000000000) ∷ ("c", 7000000000000000000000000) ∷ []

pay_twice_example :
    pay_loop (λ to n. true) (ledger_after [] (pay_loop (λ to n. true) [] shares).0) shares
    ≡ ([], false)
unfolding pay_loop lookup
pay_twice_example = pay_twice (λ to n. true) (λ to n. true) [] shares refl

abbrev alive_rep : Bytes
alive_rep =
    83 ∷ 65 ∷ 1 ∷ 9 ∷ 0 ∷ 0 ∷ 0 ∷ 0 ∷ 0 ∷ 0 ∷ 0 ∷ 0 ∷ 0 ∷ 0 ∷ 0 ∷ 0 ∷ 0 ∷ 0 ∷ 0 ∷ 0 ∷ 0 ∷ 0 ∷ 0 ∷ 0
    ∷ 0 ∷ 0 ∷ 0 ∷ 0 ∷ 0 ∷ 0 ∷ 0 ∷ 0 ∷ []

abbrev no_aux : Bytes
no_aux = 0 ∷ 0 ∷ 0 ∷ 0 ∷ 0 ∷ 0 ∷ 0 ∷ 0 ∷ 0 ∷ 0 ∷ 0 ∷ 0 ∷ []

abbrev buy_rep : Bytes
buy_rep =
    83 ∷ 65 ∷ 1 ∷ 1 ∷ 0 ∷ 0 ∷ 0 ∷ 0 ∷ 0 ∷ 0 ∷ 0 ∷ 0 ∷ 0 ∷ 0 ∷ 0 ∷ 0 ∷ 0 ∷ 0 ∷ 1 ∷ 44 ∷ 0 ∷ 0 ∷ 0 ∷ 0
    ∷ 0 ∷ 0 ∷ 0 ∷ 0 ∷ 0 ∷ 0 ∷ 0 ∷ 0 ∷ []

abbrev heartbeat : CachedSend
heartbeat = record { account = "nano_a"; height = 3; time = 1000; rep = "nano_alive" }

build_alive_example :
    build (λ t. some alive_rep) "nano_t" (some heartbeat ∷ [])
    ≡ build (λ t. some alive_rep) "nano_t" []
unfolding encode pack fill_bytes put_uint64
build_alive_example =
    build_alive (λ t. some alive_rep) "nano_t" heartbeat absent no_aux alive_rep [] refl refl

abbrev registers : String → Event
registers a = record {
  op = record { code = 4; amount = absent; aux = no_aux };
  sender = a;
  recipient = "nano_t";
  send_height = 3;
  time = 1000;
}

apply_commute_example :
    lookup "nano_a"
      (apply (apply (new_state "nano_t") (registers "nano_a")).0 (registers "nano_b")).0.relays
    ≡ lookup "nano_a"
        (apply (apply (new_state "nano_t") (registers "nano_b")).0 (registers "nano_a")).0.relays
apply_commute_example =
    apply_commute (new_state "nano_t") (registers "nano_a") (registers "nano_b") "nano_a"
      (λ e. cc ((eq_iff "nano_a" "nano_b").1 e))
