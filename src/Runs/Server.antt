-- ===== src/Runs/Server.antt =====
-- sail/relay: a circuit that is resumed, the cells of a connection, and ledger requests.
use sailnet.Common.{ℕ, ◌≤◌, ◌≡◌, refl, arith, List, [], ◌∷◌, ◌++◌, true, false, none, some, Bytes}
use sailnet.Common.{
  take, drop, length, get_uint64, get_uint32, put_uint64, replicate, length-replicate, bytes_eq,
}
use sailnet.Runs.Toys.{tagger, keys, zeros, zeros32}
use sailnet.Wire.Cell.{Cell}
use sailnet.Wire.Resume.{resume_id, verify_resume, hmac_equal, differences}
use sailnet.Relay.Quota.{Quota, no_quota}
use sailnet.Relay.Server.Circuit.{Circuit, new_circuit}
use sailnet.Relay.Server.Ring.{Parks, find_park, reattach, serve_resume, refusal, seal_backward}
use sailnet.Relay.Server.Ring.Kept.{boxes_of}
use sailnet.Relay.Server.Ring.Resumed.{Event, replies, loses, step, run, reattach_is_lossless}
use sailnet.Relay.Server.Ring.Parked.{IsUnproved, serve_resume_refuses}
use sailnet.Relay.Server.Verify.{fresh}
use sailnet.Relay.Server.Verify.Bounds.{
  asks, recent, all_times, times_from, checks, checks_are_limited, Event as Ask,
}
use sailnet.Common.{inr}
use sailnet.Relay.Server.Conn.{gather}
use sailnet.Relay.Server.Conn.Order.{given, relayed, wanted, gather_relays}
use sailnet.Relay.Exchange.{got, rpc_reply, read_rpc, rpc_request, part_of}
use sailnet.Relay.Exchange.Whole.{read_rpc-rpc_reply}
use sailnet.Relay.Exchange.Requests.{take_parts, take_parts-rpc_request}

abbrev young : Circuit
young = new_circuit 7 "AB" (keys 1) 3 (1 ∷ [])

abbrev two_sent : List Event
two_sent = replies 7 2 (65 ∷ []) ∷ loses ∷ replies 7 2 (66 ∷ []) ∷ []

sent_few : length (run tagger young two_sent).1 ≤ 8193
unfolding run step seal_backward
sent_few = omega arith

reattach_is_lossless_example : boxes_of (reattach 9 4 1 (run tagger young two_sent).0).1 ≡ (
    put_uint64 (run tagger young two_sent).0.keys.fwd_win.high
    ∷ drop 1 (run tagger young two_sent).1)
reattach_is_lossless_example =
    reattach_is_lossless tagger young two_sent 9 4 1 refl refl (omega arith) sent_few

abbrev extended : Circuit
extended = record young { next = some 5 }

abbrev parked : Parks
parked = record { circuits = λ n. extended; parks = (zeros32, 0) ∷ [] }

-- A proof of 1970.
abbrev stale_proof : Cell
unfolding replicate
stale_proof = record { circ_id = 9; cmd = 27; stream_id = 0; payload = replicate 80 0 }

its_circuit : find_park (take 32 stale_proof.payload) parked.parks ≡ some 0
unfolding find_park take bytes_eq stale_proof
its_circuit = refl

is_unproved : IsUnproved zeros 1700000000000000000 stale_proof extended.resume
unfolding verify_resume hmac_equal differences find_park take drop bytes_eq stale_proof get_uint64
    get_uint32 resume_id
is_unproved = inr (inr (0, 0, refl, refl))

serve_resume_refuses_example :
    let r = serve_resume zeros 1700000000000000000 (λ i s. s) stale_proof 4 (λ n. none) parked in
    r.2 ≡ refusal stale_proof ∷ []
serve_resume_refuses_example =
    (serve_resume_refuses zeros 1700000000000000000 4 0 (λ i s. s) stale_proof (λ n. none) parked
      zeros32 its_circuit is_unproved).3

abbrev two_asks : List Ask
two_asks = asks 10 "AA" "1.2.3.4" ∷ asks 20 "BB" "1.2.3.4" ∷ []

checks_are_limited_example :
    (recent 30 (all_times (checks fresh two_asks)) ≤ 12)
    × (recent 30 (times_from "1.2.3.4" (checks fresh two_asks)) ≤ 3)
checks_are_limited_example =
    let (all, one, busy) =
      checks_are_limited 30 "1.2.3.4" fresh two_asks (omega arith, (omega arith, tt)) refl refl in
    (all, one)

abbrev poor : Quota
poor = no_quota 0

abbrev onward_cell : Cell
onward_cell = record { circ_id = 0; cmd = 7; stream_id = 0; payload = 65 ∷ [] }

-- A cell whose one layer holds a byte for the next hop.
abbrev sealed_cell : Cell
unfolding replicate
sealed_cell = record {
  circ_id = 7;
  cmd = 7;
  stream_id = 0;
  payload = 0 ∷ 0 ∷ 0 ∷ 0 ∷ 0 ∷ 0 ∷ 0 ∷ 1 ∷ 0 ∷ 0 ∷ 0 ∷ 0 ∷ 1 ∷ 65 ∷ replicate 16 0;
}

abbrev rich : Quota
rich = record poor { credit = ("AB", 1000000) ∷ [] }

abbrev create_cell : Cell
create_cell = record { circ_id = 8; cmd = 1; stream_id = 0; payload = [] }

abbrev padding : Cell
padding = record { circ_id = 0; cmd = 18; stream_id = 0; payload = [] }

gather_relays_example :
    let g = gather (λ n. true) (λ n. false) 0 (onward_cell ∷ []) (create_cell ∷ onward_cell ∷ []) in
    relayed (λ n. true) (λ n. false) g.0 ++ wanted (λ n. true) (λ n. false) g.1
    ≡ given 0 (onward_cell ∷ []) ++ wanted (λ n. true) (λ n. false) (create_cell ∷ onward_cell ∷ [])
gather_relays_example =
    gather_relays (λ n. true) (λ n. false) 0 (onward_cell ∷ []) (create_cell ∷ onward_cell ∷ [])
      refl refl

read_rpc-rpc_reply_example :
    read_rpc (λ b. false) 5 (rpc_reply 5 (123 ∷ 125 ∷ [])) ≡ got (123 ∷ 125 ∷ [])
read_rpc-rpc_reply_example = read_rpc-rpc_reply (λ b. false) 5 (123 ∷ 125 ∷ [])

abbrev long_body : Bytes
unfolding replicate
long_body = replicate 1016 65

long_body_lem : length long_body ≡ 1016
unfolding long_body
long_body_lem = length-replicate {A = ℕ} 1016 65

take_parts-rpc_request_example : take_parts (rpc_request 5 long_body) [] ≡ long_body ∷ []
unfolding part_of
take_parts-rpc_request_example =
    take_parts-rpc_request 5 long_body [] (omega (arith, long_body_lem))
      (omega (arith, long_body_lem)) refl
