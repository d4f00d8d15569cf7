-- ===== src/Relay/Server/Pools.antt =====
-- sail/relay/server.go: the quota a relay has prepaid at each next hop, and when it pays again. A time
-- is a count of nanoseconds, and none is Go's zero time; byte counts are int64 bit patterns; a tag is
-- its characters, which are ASCII. What the ledger answers is an argument.
pub mod Claims
pub mod Flight
pub mod Refill
use Prim.Native.String.{String}
use sailnet.Common.{ℕ, zero, suc, ◌+◌, ◌-◌, ◌*◌, ◌/◌, ◌^◌, List, [], ◌∷◌, map, Bool, true, false}
use sailnet.Common.{
  not, ◌&&◌, ◌||◌, ltb, leb, ◌==◌, if◌then◌else◌, Option, none, some, lookup, insert,
}
use sailnet.Common.{Bytes, bytes_eq, add64, sub64, mul64, div64, positive, signed_lt}
use sailnet.Token.Ops.{rate_to_raw}
use sailnet.Relay.Quota.{bytes_for, raw_for}
use sailnet.Relay.PriceCap.{Peer, cap_top_up}

abbrev pub second : ℕ
second = 1000000000

abbrev pub minute : ℕ
minute = 60000000000

abbrev pub hour : ℕ
hour = 3600000000000

abbrev pub mib : ℕ
mib = 1048576

pub record Pool : Type 0 where
  pub tag : Bytes
  pub last_top : Option ℕ
  pub credited : ℕ
  pub used : ℕ
  pub topping : Bool
  pub rate_at : Option ℕ
  pub rate_n : ℕ
  pub rate : ℕ
  pub claims : ℕ
  pub claim_at : Option ℕ
  pub wiped : Bool
  pub claim_log : Option ℕ

abbrev pub new_pool : Bytes → Pool
new_pool tag = record {
  tag = tag;
  last_top = none;
  credited = 0;
  used = 0;
  topping = false;
  rate_at = none;
  rate_n = 0;
  rate = 0;
  claims = 0;
  claim_at = none;
  wiped = false;
  claim_log = none;
}

-- `PoolRaw`, nil in test mode, and `PoolBytes`.
pub record Config : Type 0 where
  pub pool_raw : Option ℕ
  pub pool_bytes : ℕ

-- `time.Since(t) < d`; the time since Go's zero time is longer than any that the code asks for.
abbrev pub since_under : ℕ → Option ℕ → ℕ → Bool
since_under now none d = false
since_under now (some t) d = ltb (now - t) d

-- `time.Since(t) > d`.
abbrev pub since_over : ℕ → Option ℕ → ℕ → Bool
since_over now none d = true
since_over now (some t) d = ltb d (now - t)

abbrev pub left : Pool → ℕ
left p = sub64 p.credited p.used

-- `poolRaw` and `poolSize`, for a peer with this `MinRate`.
unfoldable pub pool_cost : Config → ℕ → Option ℕ
pool_cost c min_rate = elim c.pool_raw [
  | none ↦ none
  | some floor ↦
      let amount = raw_for c.pool_bytes (rate_to_raw min_rate) in
      if not (positive c.pool_bytes) || min_rate == 0
      then some floor
      else (if ltb amount floor then some floor else some amount)
]

pub pool_size : Config → ℕ → ℕ
unfolding pool_cost
pool_size c min_rate = elim (pool_cost c min_rate) [
  | none ↦ 0
  | some raw ↦ bytes_for raw (rate_to_raw min_rate)
]

-- `strings.EqualFold` on ASCII.
abbrev pub fold_byte : ℕ → ℕ
fold_byte b = if leb 65 b && leb b 90 then b + 32 else b

pub equal_fold : Bytes → Bytes → Bool
equal_fold a b = bytes_eq (map fold_byte a) (map fold_byte b)

abbrev pub is_empty : Bytes → Bool
is_empty [] = true
is_empty (x ∷ xs) = false

pub is_prepaid : Config → Bool
is_prepaid c = elim c.pool_raw [ none ↦ false | some raw ↦ true ]

-- The rate is measured anew every two seconds.
pub measure : ℕ → ℕ → Pool → Pool
measure now n p =
    let start : ℕ = elim p.rate_at [ none ↦ now | some t ↦ t ] in
    let total = add64 p.rate_n n in
    if leb (2 * second) (now - start)
    then record p {
      rate = div64 (mul64 total second) (now - start);
      rate_n = 0;
      rate_at = some now;
    }
    else record p { rate_n = total; rate_at = some start }

-- `meterPool` on the peer's pool; the answer says whether a refill is started.
pub meter : Config → Option Peer → ℕ → ℕ → Pool → Pool × Bool
unfolding measure pool_size is_prepaid
meter c rel now n p =
    let q = measure now n (record p { used = add64 p.used n }) in
    if is_prepaid c && not q.topping
    then elim rel [
      | none ↦ (q, false)
      | some r ↦
          let size = pool_size c r.min_rate in
          if leb (8 * mib) size
            && (signed_lt (left q) (size / 4) || signed_lt (left q) (mul64 q.rate 60))
          then (record q { topping = true }, true)
          else (q, false)
    ]
    else (q, false)

pub meter_pool :
    Config
    → (String → Option Peer)
    → String
    → ℕ
    → ℕ
    → List (String × Pool)
    → List (String × Pool) × Bool
unfolding meter
meter_pool c registry acct now n ps = elim (lookup acct ps) [
  | none ↦ (ps, false)
  | some p ↦ let (q, refill) = meter c (registry acct) now n p in (insert acct q ps, refill)
]

-- `poolTag`: the pool's tag, once it may be used. `static` is `PoolTag` of the two accounts.
pub pool_tag : Config → Bytes → String → List (String × Pool) → List (String × Pool) × Bytes × Bool
unfolding is_prepaid
pool_tag c static acct ps = elim (lookup acct ps) [
  | none ↦
      let ps' = insert acct (new_pool static) ps in
      if is_prepaid c then (ps', [], false) else (ps', static, true)
  | some p ↦
      if not (is_prepaid c) || not (signed_lt (left p) mib)
      then (ps, p.tag, true)
      else (ps, [], false)
]

-- `ensurePool` on the peer's pool; the answer says whether a top-up is started.
pub ensure : Config → ℕ → ℕ → Pool → Pool × Bool
unfolding is_prepaid pool_size
ensure c min_rate now p =
    if is_prepaid c
      && signed_lt (left p) (4 * mib)
      && not p.topping
      && since_over now p.last_top (5 * minute)
      && leb (8 * mib) (pool_size c min_rate)
    then (record p { last_top = some now; topping = true }, true)
    else (p, false)

pub ensure_pool :
    Config → Bytes → String → ℕ → ℕ → List (String × Pool) → List (String × Pool) × Bool
unfolding ensure
ensure_pool c static acct min_rate now ps =
    let p : Pool = elim (lookup acct ps) [ none ↦ new_pool static | some p ↦ p ] in
    let (q, start) = ensure c min_rate now p in (insert acct q ps, start)

pub recent_top_up : ℕ → Option Pool → Bool
recent_top_up now none = false
recent_top_up now (some p) = since_under now p.last_top minute

pub claim_backoff : ℕ → ℕ
claim_backoff n = if leb 3 n then hour else 10 * minute * 2 ^ n

abbrev pub claim_forget : ℕ
claim_forget = 604800000000000

-- What became of a peer's claim that its pool is exhausted: it is about another pool or paid for
-- already, it comes too soon, our own count bears it out, or it is paid for against our count.
pub data Verdict : Type 0 where
  outdated too_soon agreed charged : Verdict

-- The estimate is given up, and a top-up is owed.
pub wipe : Config → Pool → Pool
unfolding is_prepaid
wipe c p = record p { credited = p.used; last_top = none; wiped = is_prepaid c }

abbrev pub forget : ℕ → Pool → Pool
forget now p =
    if ltb 0 p.claims && since_over now p.claim_at claim_forget then record p { claims = 0 } else p

abbrev pub is_early : ℕ → Pool → Bool
is_early now p =
    since_under now p.last_top (claim_backoff p.claims)
    || since_under now p.claim_at (claim_backoff p.claims)

-- The claim, weighed against our own count of a pool that is prepaid.
pub weigh : Config → ℕ → ℕ → Pool → Pool × Verdict
unfolding pool_size claim_backoff wipe
weigh c min_rate now p =
    if signed_lt (left p) (pool_size c min_rate / 4)
    then (wipe c p, agreed)
    else (if is_early now p
        then (
          (if since_under now p.claim_log minute then p else record p { claim_log = some now }),
          too_soon,
        )
        else (wipe c (record p { claims = suc p.claims; claim_at = some now }), charged))

-- `poolExhausted` on the peer's pool; an empty tag matches every pool.
pub exhausted : Config → ℕ → Bytes → ℕ → Pool → Pool × Verdict
unfolding equal_fold is_prepaid wipe
exhausted c min_rate tag now p =
    let is_other : Bool = not (is_empty tag) && not (equal_fold tag p.tag) in
    if p.wiped || is_other
    then (p, outdated)
    else (if is_prepaid c then weigh c min_rate now (forget now p) else (wipe c p, agreed))

-- The amount that `topUpPool` means to pay, before it looks at the balance.
pub refill_amount : ℕ → ℕ → ℕ → ℕ
refill_amount base rate min_rate =
    let raw = rate_to_raw min_rate in
    let want = div64 (sub64 (add64 (mul64 rate 300) mib) 1) mib * raw in
    let amount = if ltb base want then want else base in
    if positive rate && ltb 0 raw
    then (if ltb (base * 20) amount then base * 20 else amount)
    else base

abbrev pub reserve : ℕ
reserve = 10000000000000000000000000

-- What is paid, given the balance if the ledger told it; none when there is nothing to pay from.
pub payable : ℕ → ℕ → Option ℕ → Option ℕ
payable amount base none = some amount
payable amount base (some balance) =
    let paid = cap_top_up amount (some base) (balance - reserve) in
    if ltb reserve balance then (if ltb 0 paid then some paid else none) else none

-- The last part of `topUpPool`: the payment with this hash went out, or none did.
pub top_up_paid : ℕ → Bytes → ℕ → ℕ → Pool → Pool
top_up_paid now hash amount min_rate p = record p {
  tag = hash;
  last_top = some now;
  used = 0;
  credited = bytes_for amount (rate_to_raw min_rate);
  wiped = false;
}

-- The deferred function, and the end of a top-up that is refused for its price. A relay without a ledger or
-- a size for its pools returns before it and keeps the flag; the model is of a relay that has both.
pub top_up_ended : Pool → Pool
top_up_ended p = record p { topping = false }
