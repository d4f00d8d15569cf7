-- ===== src/Runs/Relay.antt =====
-- sail/relay: a stream, a quota, a pairing code, the faucet.
use sailnet.Common.{
  ◌+◌, ◌-◌, ◌≤◌, ◌≡◌, refl, arith, ◌++◌, bytes_eq, List, [], ◌∷◌, true, false, none, some, Bytes,
  lookup,
}
use sailnet.Relay.CellQueue.{push, new_cell_queue}
use sailnet.Relay.CellQueue.Flow.{
  Link, IsBalanced, new_link, Reach, here, next, send, Reach-IsBalanced, push_accepts,
}
use sailnet.Relay.Quota.{Quota, new_quota, no_quota}
use sailnet.Relay.Quota.Log.{Op, do_credit, do_add, do_consume, restart, Agrees}
use sailnet.Relay.Quota.Recovery.{run_all, restart-Agrees}
use sailnet.Relay.Pairing.{Server, holds, Crypto, owner_create, owner_for, find_owner}
use sailnet.Relay.Pairing.Attempts.{Guess}
use sailnet.Relay.Pairing.{Files, missing}
use sailnet.Relay.Server.Create.{Front, World, free_rides}
use sailnet.Relay.Server.Create.Free.{RidesFree, free_rides_sound}
use sailnet.Relay.Server.Verify.{fresh}
use sailnet.Relay.Server.Payment.{missing as no_block}
use sailnet.Relay.Server.TopUp.{published}
use sailnet.Relay.Quota.{known}
use sailnet.Runs.Toys.{zeros32}
use sailnet.Relay.Pairing.{pairing_create, grant}
use sailnet.Relay.Quota.{credit, log_line}
use sailnet.Common.{◌++◌, false, take, drop, lookup, insert}
use sailnet.Relay.Faucet.{FaucetState, Faucet, Claim, admit, account_used, count_at, roll}
use sailnet.Relay.Faucet.Limits.{
  Event, claim_at, paid_at, run, granted, admit_once_a_day, granted_bounds,
}

abbrev one_sent : Link
one_sent = record new_link {
  queue = (push new_link.queue (7 ∷ [])).0;
  credit = new_link.credit - 1;
}

reached : Reach new_link one_sent
unfolding new_link
reached = next here (send new_link (7 ∷ []) (omega arith))

Reach-IsBalanced_example : IsBalanced one_sent
Reach-IsBalanced_example = Reach-IsBalanced reached

push_accepts_example :
    ((push new_link.queue (7 ∷ [])).1 ≡ true)
    × ((push new_link.queue (7 ∷ [])).0.q ≡ new_link.queue.q ++ ((7 ∷ []) ∷ []))
unfolding new_link new_cell_queue
push_accepts_example = push_accepts (7 ∷ []) here (omega arith) refl

abbrev day_at_the_relay : List Op
day_at_the_relay =
    do_credit "tag" 5000000 "nano_payer"
    ∷ do_consume "tag" 1500000
    ∷ do_add "tag" 1000000
    ∷ do_consume "tag" 400
    ∷ []

abbrev evening : Quota
evening = run_all (λ t. t) (new_quota (some []) 100) day_at_the_relay

restart-Agrees_example : Agrees (restart evening) evening "tag"
restart-Agrees_example =
    restart-Agrees (λ t. t) 100 day_at_the_relay
      (omega arith, (omega arith, (omega arith, (omega arith, tt)))) "tag"

abbrev home_relay : Server
home_relay = record {
  pairing_path = true;
  disk = holds (record { salt = "salt"; hash = "1234"; expires = 100; attempts = 0 });
  owner = none;
  owners = (7 ∷ []) ∷ [];
  owners_path = true;
  owners_disk = [];
  quota = some (no_quota 100);
  relay_key = some (1 ∷ []);
}

abbrev wrong_guesses : List Guess
wrong_guesses =
    record { time = 1; wallet = "w"; code = 49 ∷ [] }
    ∷ record { time = 2; wallet = "w"; code = 50 ∷ [] }
    ∷ []

-- A file system on which everything succeeds.
abbrev files : Files
files = record { write = λ pf d. holds pf; remove = λ d. missing }

abbrev toy : Crypto
toy = record {
  owner_tag = λ relay k. k;
  pairing_tag = λ relay k. k;
  verify_create = λ k p tag sig. true;
  to_hex = λ k. "key";
  quota_key = λ t. t;
}

abbrev quiet_day : FaucetState
quiet_day = record { day = 20000; ips = []; accounts = []; paid = 0; refused = 0; last_paid = 0 }

abbrev one_claim : Claim
one_claim = record {
  pay = 10;
  claims = 1;
  limit = 3;
  ip_key = "1.2.3.4";
  payable = true;
  trial = false;
}

admit_once_a_day_example :
    (admit 1728003600 "nano_a" one_claim
      (run (admit 1728000000 "nano_a" one_claim quiet_day).0 (paid_at 1728000060 ∷ []))).1
    ≡ account_used
unfolding admit roll lookup
admit_once_a_day_example =
    admit_once_a_day 1728000000 "nano_a" one_claim quiet_day (paid_at 1728000060 ∷ []) 1728003600
      one_claim refl (tt, tt) (omega arith)

abbrev two_claims : List Event
two_claims = claim_at 1728000000 "nano_a" one_claim ∷ claim_at 1728000001 "nano_b" one_claim ∷ []

granted_bounds_example :
    count_at "1.2.3.4" quiet_day.ips + granted "1.2.3.4" quiet_day two_claims ≤ 3
unfolding lookup
granted_bounds_example =
    granted_bounds 20000 3 "1.2.3.4" quiet_day two_claims refl (omega arith) (omega arith)
      ((refl, λ e. refl, omega arith), ((refl, λ e. refl, omega arith), tt))

abbrev faucet : Faucet
faucet = record {
  amount = 10;
  per_ip = 3;
  has_key = true;
  has_nano = true;
  trial_amount = none;
  trial_per_ip = 0;
  has_trial_key = false;
}

abbrev greedy : Claim
greedy = record one_claim { claims = 4 }

abbrev quiet_world : World
quiet_world = record {
  now = 0;
  unix = 0;
  ip = "1.2.3.4";
  supplied = none;
  hash_is_tag = false;
  process = published;
  replies = λ i. no_block;
  others = λ i s. s;
}

abbrev door_front : Front
door_front = record { door = home_relay; quota = no_quota 100; welcome = []; verifier = fresh }

abbrev owner_payload : Bytes
owner_payload = zeros32 ++ (zeros32 ++ (zeros32 ++ zeros32))

-- The owner whose key is the tag in the payload.
abbrev owned : Front
owned = record door_front { door = record home_relay { owners = zeros32 ∷ [] } }

unknown_before : known (λ t. t) (no_quota 100) "AB" ≡ false
unfolding known lookup
unknown_before = refl

known_after :
    known
      (λ t. t)
      (free_rides toy (λ a. none) (λ a. none) quiet_world "AB" owner_payload owned).quota
      "AB"
    ≡ true
unfolding free_rides owner_create owner_for find_owner bytes_eq pairing_create known lookup take
    drop grant credit log_line insert
known_after = ground arith

free_rides_sound_example : RidesFree toy 0 owned.door (1 ∷ []) owner_payload
free_rides_sound_example =
    free_rides_sound toy (λ a. none) (λ a. none) quiet_world "AB" owner_payload (1 ∷ []) owned refl
      unknown_before known_after
