-- ===== src/Relay/Server/Circuit.antt =====
-- sail/relay/server.go: what a hop keeps of a circuit. A connection is a number; a time is a count of
-- nanoseconds.
use Prim.Native.String.{String}
use sailnet.Common.{ℕ, List, [], ◌∷◌, Bool, true, false, if◌then◌else◌, Option, none, some, Bytes}
use sailnet.Wire.{cmd_destroy}
use sailnet.Wire.Cell.{Cell}
use sailnet.Wire.Onion.{HopKeys}

-- A backward cell that was sent, with its sequence number.
pub record RingCell : Type 0 where
  pub seq : ℕ
  pub cell : Cell

pub record Circuit : Type 0 where
  pub id : ℕ  -- uint32
  pub tag : String
  pub keys : HopKeys
  pub link : Option ℕ  -- `in`: none while the client's link is away
  pub next : Option ℕ
  pub next_id : ℕ
  pub pool_acct : String
  pub pending : List (ℕ × List Bytes)
  pub low_sent : Bool
  pub resume : Bytes
  pub parked_at : Option ℕ
  pub ring : List RingCell
  pub rate_at : Option ℕ
  pub rate_n : ℕ  -- int64
  pub rate : ℕ  -- int64
  pub exhausted : Bool
  pub closed : Bool

-- `handleCreate` makes the circuit so.
abbrev pub new_circuit : ℕ → String → HopKeys → ℕ → Bytes → Circuit
new_circuit id tag keys link resume = record {
  id = id;
  tag = tag;
  keys = keys;
  link = some link;
  next = none;
  next_id = 0;
  pool_acct = "";
  pending = [];
  low_sent = false;
  resume = resume;
  parked_at = none;
  ring = [];
  rate_at = none;
  rate_n = 0;
  rate = 0;
  exhausted = false;
  closed = false;
}

-- `destroy`: the cells it writes stand beside the connection they go to. The streams' ends are not part
-- of this record.
unfoldable pub destroy : Circuit → Circuit × List (ℕ × Cell)
destroy c =
    let word_of : ℕ → List (ℕ × Cell) = λ w.
      (w, record { circ_id = c.next_id; cmd = cmd_destroy; stream_id = 0; payload = [] }) ∷ [] in
    if c.closed
    then (c, [])
    else (record c { closed = true }, elim c.next [ none ↦ [] | some w ↦ word_of w ])
