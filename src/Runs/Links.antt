-- ===== src/Runs/Links.antt =====
-- sail/relay: datagrams in pieces, and watched accounts.
use sailnet.Common.{◌≡◌, refl, arith, List, [], ◌∷◌, true, false, ◌≤◌, Bytes, put_uint16}
use sailnet.Relay.Datagram.{frame, taken}
use sailnet.Relay.Datagram.Pieces.{stream, writes, writes_sends}
use sailnet.Relay.Watch.{has, targets, unwatch, watching}
use sailnet.Relay.Watch.Table.{
  Event, watches, unwatches, run, watching_bounds, dropped_is_left_alone,
}
use sailnet.Common.{some, none, replicate, lookup}
use sailnet.Relay.Gossip.{Crypto, SignedRecord}
use sailnet.Relay.Gossip.Table.{Event as Offered, adds, hands_out, run as run_table}
use sailnet.Relay.Registry.{Registry, get, all}
use sailnet.Relay.Registry.Agree.{named, to_list, named-all}

-- Two datagrams, cut inside a length and inside a body.
abbrev two_datagrams : List Bytes
two_datagrams = (65 ∷ 66 ∷ []) ∷ (67 ∷ []) ∷ []

abbrev pieces : List Bytes
pieces = (0 ∷ []) ∷ (2 ∷ 65 ∷ []) ∷ (66 ∷ 0 ∷ 1 ∷ 67 ∷ []) ∷ []

writes_sends_example : writes (λ d. true) [] pieces ≡ (two_datagrams, [], taken)
unfolding stream frame put_uint16
writes_sends_example =
    writes_sends (λ d. true) two_datagrams pieces ((omega arith, refl), ((omega arith, refl), tt))
      refl

abbrev few : List Event
few = watches "nano_1" 3 ∷ watches "nano_2" 4 ∷ unwatches 4 ∷ []

watching_bounds_example : watching 3 (run [] few) ≤ 8
watching_bounds_example = watching_bounds 3 few

dropped_is_left_alone_example :
    has 7 (targets "nano_1" "nano_2" (run (unwatch 7 (("nano_1", 7 ∷ []) ∷ [])) few)) ≡ false
dropped_is_left_alone_example =
    dropped_is_left_alone 7 "nano_1" "nano_2" few (("nano_1", 7 ∷ []) ∷ [])
      ((λ e. absurd (omega (arith, e))), ((λ e. absurd (omega (arith, e))), (tt, tt)))

-- One relay whose signature always holds.
abbrev open_crypto : Crypto
open_crypto = record {
  address_to_pubkey = λ a. some (1 ∷ []);
  of_hex = λ s. some (replicate 12 8);
  text = λ s. [];
  hash = λ b. b;
  verify = λ k d s. true;
}

abbrev young_record : SignedRecord
young_record = record {
  account = "nano_1";
  country = "CH";
  asn = 1;
  min_rate = 5;
  flags = 1;
  desc = "08";
  host = "";
  time = 10;
  sig = "00";
  spot = none;
}

abbrev offers : List Offered
offers = adds 11000000000 young_record ∷ hands_out 12000000000 none ∷ []

abbrev one_record : Registry
one_record = record { relays = []; bridges = []; gossip = ("nano_1", young_record) ∷ [] }

named-all_example :
    named "nano_1" (all open_crypto 11000000000 one_record)
    ≡ to_list (get open_crypto 11000000000 "nano_1" one_record)
unfolding lookup
named-all_example =
    named-all open_crypto 11000000000 "nano_1" one_record tt tt (refl, tt) tt tt (refl, tt)
