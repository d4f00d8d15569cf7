-- ===== src/Relay/Quota.antt =====
-- sail/relay/quota.go: prepaid bytes per payment tag, with the write-ahead log. Byte counts are int64
-- bit patterns. The hash of a tag is the parameter `key`. A line of the log is given by its fields;
-- the decimal text of `fmt` is not modelled. Each method holds the mutex throughout: one step.
pub mod Log
pub mod Recovery
pub mod Rates
pub mod Effects
use mathlib.Core.Option.{get_or}
use Prim.Native.String.{String}
use text.Mathlib.Text.{◌==◌ as str_eq}
use sailnet.Common.{ℕ, ◌+◌, ◌-◌, ◌*◌, ◌/◌, List, [], ◌∷◌, ◌++◌, Bool, true, false, not, ◌||◌}
use sailnet.Common.{ltb, leb, ◌==◌, if◌then◌else◌, Option, none, some, lookup, insert, erase}
use sailnet.Common.{add64, sub64, positive, signed_lt, half_word}

pub data WalLine : Type 0 where
  credit_line : String → ℕ → Option String → WalLine
  consume_line : String → ℕ → WalLine
  other_line : WalLine

pub record Quota : Type 0 where
  pub credit : List (String × ℕ)
  pub consumed : List (String × ℕ)
  pub owner : List (String × String)
  pub pending : List (String × ℕ)
  pub wal : Option (List WalLine)
  pub min_rate : ℕ

-- `m[k]` on a map of numbers, and on a map of strings.
abbrev pub at : String → List (String × ℕ) → ℕ
at k m = get_or (lookup k m) 0

abbrev pub text_at : String → List (String × String) → String
text_at k m = get_or (lookup k m) ""

abbrev pub is_some {ℓ} : {A : Type ℓ} → Option A → Bool
is_some none = false
is_some (some _) = true

-- One round of the loop of `NewQuota` over the lines of the log.
pub replay_line : Quota → WalLine → Quota
replay_line q (credit_line k n none) = record q {
  credit = insert k (add64 (at k q.credit) n) q.credit;
}
replay_line q (credit_line k n (some o)) = record q {
  credit = insert k (add64 (at k q.credit) n) q.credit;
  owner = insert k o q.owner;
}
replay_line q (consume_line k n) = record q {
  consumed = insert k (add64 (at k q.consumed) n) q.consumed;
}
replay_line q other_line = q

abbrev pub no_quota : ℕ → Quota
no_quota rate = record {
  credit = [];
  consumed = [];
  owner = [];
  pending = [];
  wal = none;
  min_rate = rate;
}

pub replay : Quota → List WalLine → Quota
unfolding replay_line
replay q [] = q
replay q (l ∷ ls) = replay (replay_line q l) ls

-- `NewQuota` over a log file with these lines, and in memory only.
pub new_quota : Option (List WalLine) → ℕ → Quota
unfolding replay
new_quota none rate = no_quota rate
new_quota (some lines) rate = record (replay (no_quota rate) lines) { wal = some lines }

pub set_min_rate : Quota → ℕ → Quota
set_min_rate q raw = record q { min_rate = raw }

unfoldable pub log_line : Quota → WalLine → Quota
log_line q l = elim q.wal [ none ↦ q | some w ↦ record q { wal = some (w ++ (l ∷ [])) } ]

-- The owner field is written when it is not empty.
abbrev pub owner_field : String → Option String
owner_field o = if str_eq o "" then none else some o

module _ (key : String → String) where
  unfoldable pub credit : Quota → String → ℕ → String → Quota × Bool
  unfolding log_line
  credit q tag bytes owner =
      let k = key tag in
      if is_some (lookup k q.credit) then (q, false) else (
        log_line (record q { credit = insert k bytes q.credit; owner = insert k owner q.owner })
            (credit_line k bytes (owner_field owner)),
        true,
      )

  unfoldable pub add : Quota → String → ℕ → Quota × ℕ × Bool
  unfolding log_line
  add q tag bytes =
      let k = key tag in
      let q' = record q { credit = insert k (add64 (at k q.credit) bytes) q.credit } in
      if is_some (lookup k q.credit)
      then (
        log_line q' (credit_line k bytes (owner_field (text_at k q.owner))),
        sub64 (at k q'.credit) (at k q.consumed),
        true,
      )
      else (q, 0, false)

  pub total : Quota → String → ℕ
  total q tag = at (key tag) q.credit

  unfoldable pub known : Quota → String → Bool
  known q tag = is_some (lookup (key tag) q.credit)

  unfoldable pub owner_of : Quota → String → String
  owner_of q tag = text_at (key tag) q.owner

  -- The pending count, once `n` more bytes are used: a whole MiB is logged.
  unfoldable pub consume : Quota → String → ℕ → Quota × ℕ
  unfolding log_line
  consume q tag n =
      let k = key tag in
      let c = add64 (at k q.consumed) n in
      let p = add64 (at k q.pending) n in
      let q' = record q { consumed = insert k c q.consumed } in
      let q'' =
        if positive n
        then (if signed_lt p 1048576
            then record q' { pending = insert k p q.pending }
            else record (log_line q' (consume_line k p)) { pending = insert k 0 q.pending })
        else q' in
      (q'', sub64 (at k q.credit) c)

  unfoldable pub remaining : Quota → String → ℕ
  remaining q tag = sub64 (at (key tag) q.credit) (at (key tag) q.consumed)

-- The loop of `Flush` over the pending counts, in the order in which the map gives them.
pub flush_loop : List (String × ℕ) → Quota → Quota
unfolding log_line
flush_loop [] q = record q { pending = [] }
flush_loop ((k, n) ∷ r) q = flush_loop r (if positive n then log_line q (consume_line k n) else q)

pub flush : Quota → Quota
unfolding flush_loop
flush q = flush_loop q.pending q

-- `BytesFor` and `RawFor`, over `big.Int` amounts. `rate` 0 stands for a rate that is missing or not
-- positive; bytes are an int64 that is not negative.
pub bytes_for : ℕ → ℕ → ℕ
bytes_for raw rate =
    if rate == 0
    then 0
    else (if ltb (raw * 1048576 / rate) half_word
        then raw * 1048576 / rate
        else 4611686018427387904)

pub raw_for : ℕ → ℕ → ℕ
raw_for bytes rate = if bytes == 0 || rate == 0 then 0 else (bytes + 1048576 - 1) / 1048576 * rate
