-- ===== src/Relay/Server/Pools/Flight.antt =====
-- sail/relay/server.go: the top-ups of one pool that run at the same time.
use sailnet.Common.{ℕ, suc, ◌+◌, ◌≤◌, ◌≡◌, refl, arith, Bool, if◌then◌else◌, Bytes}
use sailnet.Common.{Option, none, some}
use sailnet.Relay.PriceCap.{Peer}
use sailnet.Relay.Server.Pools.{
  Pool, Config, new_pool, meter, measure, ensure, exhausted, weigh, wipe, top_up_paid, top_up_ended,
}

abbrev pub one_if : Bool → ℕ
one_if b = if b then 1 else 0

-- The pools a relay reaches, each with the number of its top-ups that have started and not ended.
pub data Reach (c : Config) : Pool → ℕ → Type 0 where
  opens : (tag : Bytes) → Reach c (new_pool tag) 0
  sends :
      {p : Pool} {n : ℕ} (rel : Option Peer) (now bytes : ℕ)
      → Reach c p n
      → Reach c (meter c rel now bytes p).0 (n + one_if (meter c rel now bytes p).1)
  claimed :
      {p : Pool} {n : ℕ} (min_rate now : ℕ) (tag : Bytes)
      → Reach c p n
      → Reach c (exhausted c min_rate tag now p).0 n
  wants :
      {p : Pool} {n : ℕ} (min_rate now : ℕ)
      → Reach c p n
      → Reach c (ensure c min_rate now p).0 (n + one_if (ensure c min_rate now p).1)
  paid :
      {p : Pool} {n : ℕ} (now : ℕ) (hash : Bytes) (amount min_rate : ℕ)
      → Reach c p (suc n)
      → Reach c (top_up_paid now hash amount min_rate p) (suc n)
  ended : {p : Pool} {n : ℕ} → Reach c p (suc n) → Reach c (top_up_ended p) n

-- The flag counts the top-ups.
abbrev pub IsSingle : Pool → ℕ → Type 0
IsSingle p n = n ≡ one_if p.topping

meter-IsSingle :
    (c : Config) (rel : Option Peer) (now bytes n : ℕ) (p : Pool)
    → IsSingle p n
    → IsSingle (meter c rel now bytes p).0 (n + one_if (meter c rel now bytes p).1)
unfolding meter measure
meter-IsSingle c none now bytes n p h = ground (arith, h)
meter-IsSingle c (some r) now bytes n p h = ground (arith, h)

exhausted-IsSingle :
    (c : Config) (min_rate now n : ℕ) (tag : Bytes) (p : Pool)
    → IsSingle p n
    → IsSingle (exhausted c min_rate tag now p).0 n
unfolding exhausted weigh wipe
exhausted-IsSingle c min_rate now n tag p h = ground (arith, h)

ensure-IsSingle :
    (c : Config) (min_rate now n : ℕ) (p : Pool)
    → IsSingle p n
    → IsSingle (ensure c min_rate now p).0 (n + one_if (ensure c min_rate now p).1)
unfolding ensure
ensure-IsSingle c min_rate now n p h = ground (arith, h)

top_up_paid-IsSingle :
    (now : ℕ) (hash : Bytes) (amount min_rate n : ℕ) (p : Pool)
    → IsSingle p (suc n)
    → IsSingle (top_up_paid now hash amount min_rate p) (suc n)
unfolding top_up_paid
top_up_paid-IsSingle now hash amount min_rate n p h = h

top_up_ended-IsSingle : (n : ℕ) (p : Pool) → IsSingle p (suc n) → IsSingle (top_up_ended p) n
unfolding top_up_ended
top_up_ended-IsSingle n p h = ground (arith, h)

-- In every state a pool reaches by cells sent, claims of the peer, calls that want it filled, payments
-- and ends of top-ups, in any order: one top-up at most is in flight, and the flag says whether.
pub Reach-IsSingle : {c : Config} {p : Pool} {n : ℕ} → Reach c p n → (n ≤ 1) × IsSingle p n
Reach-IsSingle r = let e = count r in (ground (arith, e), e)
  where
    count : {c : Config} {p : Pool} {n : ℕ} → Reach c p n → IsSingle p n
    count (opens tag) = refl
    count {c} (sends {p} {n} rel now bytes r) = meter-IsSingle c rel now bytes n p (count r)
    count {c} (claimed {p} {n} min_rate now tag r) =
        exhausted-IsSingle c min_rate now n tag p (count r)
    count {c} (wants {p} {n} min_rate now r) = ensure-IsSingle c min_rate now n p (count r)
    count (paid {p} {n} now hash amount min_rate r) =
        top_up_paid-IsSingle now hash amount min_rate n p (count r)
    count (ended {p} {n} r) = top_up_ended-IsSingle n p (count r)
