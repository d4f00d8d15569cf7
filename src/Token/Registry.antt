-- ===== src/Token/Registry.antt =====
-- sail/token/state.go and the last stage of sail/token/indexer.go: the registry of relays that a list
-- of ledger blocks builds. Times are int64 bit patterns; `address_to_pubkey` is gonano's decoder.
pub mod Fold
use Prim.Native.String.{String, compare}
use Prim.Native.Nat.{Ordering}
use text.Mathlib.Text.{◌==◌ as str_eq}
use sailnet.Common.{ℕ, ◌+◌, ◌-◌, List, [], ◌∷◌, ◌++◌, Bool, true, false, ◌||◌, ltb, leb, ◌==◌, not}
use sailnet.Common.{
  if◌then◌else◌, Option, none, some, lookup, insert, Bytes, signed_lt, sub64, replicate,
}
use sailnet.Token.Ops.{op_register, op_descriptor, op_nop, op_alive, Op, Result, ok, err, decode}
use sailnet.Token.Ops.{parse_register_aux}

pub record Relay : Type 0 where
  pub account : String
  pub country : Bytes
  pub asn : ℕ
  pub min_rate : ℕ
  pub flags : ℕ
  pub descriptor : Bytes
  pub height : ℕ
  pub last_seen : ℕ

pub record State : Type 0 where
  pub treasury : String
  pub relays : List (String × Relay)
  pub events : ℕ

pub new_state : String → State
new_state treasury = record { treasury = treasury; relays = []; events = 0 }

pub record Event : Type 0 where
  pub op : Op
  pub sender : String
  pub recipient : String
  pub send_height : ℕ
  pub time : ℕ

abbrev pub touch : Relay → ℕ → Relay
touch r t = if signed_lt r.last_seen t then record r { last_seen = t } else r

abbrev pub fresh_relay : String → Relay
fresh_relay a = record {
  account = a;
  country = [];
  asn = 0;
  min_rate = 0;
  flags = 0;
  descriptor = replicate 12 0;
  height = 0;
  last_seen = 0;
}

abbrev pub relay_or_fresh : Option Relay → String → Relay
relay_or_fresh none a = fresh_relay a
relay_or_fresh (some r) a = r

pub data Outcome : Type 0 where
  applied not_anchored before_register not_registry_op : Outcome

-- The entry that a REGISTER and a DESCRIPTOR leave.
pub registered : Option Relay → Event → Relay
registered o e =
    let (cc, asn, rate, flags) = parse_register_aux e.op.aux in
    let r = relay_or_fresh o e.sender in
    touch
      (record r { country = cc; asn = asn; min_rate = rate; flags = flags; height = e.send_height })
      e.time

pub described : Relay → Event → Relay
described r e = touch (record r { descriptor = e.op.aux }) e.time

-- The cases of `Apply`: the new entry of the sender, if there is one, and the error.
pub new_entry : String → Option Relay → Event → Option Relay × Outcome
unfolding registered described
new_entry treasury o e =
    if e.op.code == op_register
    then (if str_eq e.recipient treasury
        then (some (registered o e), applied)
        else (none, not_anchored))
    else (if e.op.code == op_descriptor
        then (elim o [ none ↦ (none, before_register) | some r ↦ (some (described r e), applied) ])
        else (if e.op.code == op_alive
            then (elim o [ none ↦ (none, applied) | some r ↦ (some (touch r e.time), applied) ])
            else (if e.op.code == op_nop then (none, applied) else (none, not_registry_op))))

-- The write of the entry into the map.
abbrev pub write_entry : State → String → Option Relay → State
write_entry s a none = s
write_entry s a (some r) = record s { relays = insert a r s.relays }

pub apply : State → Event → State × Outcome
unfolding new_entry
apply s e =
    let (entry, outcome) = new_entry s.treasury (lookup e.sender s.relays) e in
    (write_entry (record s { events = s.events + 1 }) e.sender entry, outcome)

abbrev pub alive_ttl : ℕ
alive_ttl = 259200

-- `now-r.LastSeen <= AliveTTL` on int64s.
pub alive : Relay → ℕ → Bool
alive r now = r.last_seen == 0 || not (signed_lt alive_ttl (sub64 now r.last_seen))

-- What the cache says of a send block, its numbers parsed.
pub record CachedSend : Type 0 where
  pub account : String
  pub height : ℕ
  pub time : ℕ
  pub rep : String

module _ (address_to_pubkey : String → Option Bytes) where
  pub decode_rep_addr : String → Option Op
  decode_rep_addr addr = elim (address_to_pubkey addr) [
    | none ↦ none
    | some pk ↦ elim (decode pk) [ ok op ↦ some op | err e ↦ none ]
  ]

  -- The loop of `Run` that turns the sends into events.
  pub events_of : String → List (Option CachedSend) → List Event
  unfolding decode_rep_addr
  events_of treasury [] = []
  events_of treasury (none ∷ r) = events_of treasury r
  events_of treasury (some b ∷ r) =
      let rest = events_of treasury r in
      if str_eq b.account "" || str_eq b.account treasury
      then rest
      else (elim (decode_rep_addr b.rep) [
        | none ↦ rest
        | some op ↦
            record {
              op = op;
              sender = b.account;
              recipient = treasury;
              send_height = b.height;
              time = b.time;
            }
            ∷ rest
      ])

-- The order of `sort.Slice`: by author, then by height.
pub event_before : Event → Event → Bool
event_before a b =
    if str_eq a.sender b.sender
    then ltb a.send_height b.send_height
    else (elim (compare a.sender b.sender) [ Ordering.lt ↦ true | _ ↦ false ])

pub insert_event : Event → List Event → List Event
unfolding event_before
insert_event e [] = e ∷ []
insert_event e (f ∷ r) = if event_before f e then f ∷ insert_event e r else e ∷ (f ∷ r)

pub sort_events : List Event → List Event
unfolding insert_event
sort_events [] = []
sort_events (e ∷ r) = insert_event e (sort_events r)

pub apply_all : State → List Event → State
unfolding apply
apply_all s [] = s
apply_all s (e ∷ r) = apply_all (apply s e).0 r

-- The registry that `Run` builds from the sends it has read.
pub build : (String → Option Bytes) → String → List (Option CachedSend) → State
unfolding events_of sort_events apply_all new_state
build address_to_pubkey treasury sends =
    apply_all (new_state treasury) (sort_events (events_of address_to_pubkey treasury sends))
