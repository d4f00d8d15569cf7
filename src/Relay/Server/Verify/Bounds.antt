-- ===== src/Relay/Server/Verify/Bounds.antt =====
-- sail/relay/server.go: the limits of `allowVerify`, over runs in which the calls of several
-- connections interleave.
use Prim.Native.String.{String}
use text.Mathlib.Text.{◌==◌ as str_eq}
use text.Mathlib.TextEquality.{eq_iff}
use sailnet.Common.{ℕ, ◌+◌, ◌≤◌, ◌<◌, ◌≡◌, refl, arith, List, [], ◌∷◌, ◌++◌, All, inl, inr}
use sailnet.Common.{true, false, not, ◌&&◌, if◌then◌else◌, length, length-append}
use sailnet.Common.{some, lookup, insert, lookup-insert, Bool-cases}
use sailnet.Relay.Server.Verify.{
  Verifier, minute, within, prune, times_of, is_busy, is_bad, allow_verify, mark_bad, set_busy,
  clear_busy,
}

pub data Event : Type 0 where
  asks : ℕ → String → String → Event
  marks : ℕ → String → Event
  starts : String → Event
  ends : String → Event

pub step : Verifier → Event → Verifier
step v (asks now tag ip) = (allow_verify now tag ip v).0
step v (marks now tag) = mark_bad now tag v
step v (starts tag) = set_busy tag v
step v (ends tag) = clear_busy tag v

pub run : Verifier → List Event → Verifier
unfolding step
run v [] = v
run v (e ∷ es) = run (step v e) es

-- The call that the event lets through and counts. A call for a tag that is being checked already is let
-- through too, and not counted.
abbrev started : Verifier → Event → List (ℕ × String)
started v (asks now tag ip) =
    if (allow_verify now tag ip v).1 && not (is_busy v tag) then (now, ip) ∷ [] else []
started v (marks now tag) = []
started v (starts tag) = []
started v (ends tag) = []

pub checks : Verifier → List Event → List (ℕ × String)
unfolding step
checks v [] = []
checks v (e ∷ es) = started v e ++ checks (step v e) es

-- How many of the times are less than a minute before `t`.
pub recent : ℕ → List ℕ → ℕ
recent t [] = 0
recent t (s ∷ ts) = (if within t minute s then 1 else 0) + recent t ts

-- Of the checks, those of everyone, and those of one address.
pub all_times : List (ℕ × String) → List ℕ
all_times [] = []
all_times ((now, ip) ∷ cs) = now ∷ all_times cs

pub times_from : String → List (ℕ × String) → List ℕ
times_from ip [] = []
times_from ip ((now, j) ∷ cs) =
    let rest = times_from ip cs in if str_eq j ip then now ∷ rest else rest

recent-append : (t : ℕ) (xs ys : List ℕ) → recent t (xs ++ ys) ≡ recent t xs + recent t ys
unfolding recent
recent-append t [] ys = omega arith
recent-append t (x ∷ xs) ys = omega (arith, recent-append t xs ys)

recent-prune : (t now : ℕ) (ts : List ℕ) → now ≤ t → recent t (prune now minute ts) ≡ recent t ts
unfolding recent prune
recent-prune t now [] h = refl
recent-prune t now (s ∷ ts) h = ground (arith, recent-prune t now ts h)

recent_bounds : (t : ℕ) (ts : List ℕ) → recent t ts ≤ length ts
unfolding recent
recent_bounds t [] = omega arith
recent_bounds t (s ∷ ts) = ground (arith, recent_bounds t ts)

length-prune : (now w : ℕ) (ts : List ℕ) → length (prune now w ts) ≤ length ts
unfolding prune
length-prune now w [] = omega arith
length-prune now w (s ∷ ts) = ground (arith, length-prune now w ts)

-- No event is later than `t`.
abbrev pub By : ℕ → Event → Type 0
By t (asks now tag ip) = now ≤ t
By t (marks now tag) = now ≤ t
By t (starts tag) = Unit
By t (ends tag) = Unit

step_global :
    (t : ℕ) (v : Verifier) (e : Event)
    → By t e
    → length v.global ≤ 12
    → (length (step v e).global ≤ 12)
      × (recent t (step v e).global ≡ recent t v.global + recent t (all_times (started v e)))
unfolding step allow_verify recent all_times mark_bad set_busy clear_busy
step_global t v (marks now tag) b h = ground arith
step_global t v (starts tag) b h = ground arith
step_global t v (ends tag) b h = ground arith
step_global t v (asks now tag ip) b h = ground (
  arith,
  recent-prune t now v.global b,
  length-prune now minute v.global,
  length-append (prune now minute v.global) (now ∷ []),
  recent-append t (prune now minute v.global) (now ∷ []),
)

all_times-append :
    (t : ℕ) (xs ys : List (ℕ × String))
    → recent t (all_times (xs ++ ys)) ≡ recent t (all_times xs) + recent t (all_times ys)
unfolding all_times recent
all_times-append t [] ys = omega arith
all_times-append t ((now, ip) ∷ xs) ys = omega (arith, all_times-append t xs ys)

-- For every run of calls none of which is later than `t`, from a server that has counted at most twelve:
-- at most twelve of the calls that are counted are less than a minute before `t`.
pub checks_bounds :
    (t : ℕ) (v : Verifier) (es : List Event)
    → All (By t) es
    → length v.global ≤ 12
    → recent t v.global + recent t (all_times (checks v es)) ≤ 12
unfolding checks all_times recent
checks_bounds t v [] b h = omega (arith, h, recent_bounds t v.global)
checks_bounds t v (e ∷ es) (b, bs) h =
    let (h', same) = step_global t v e b h in
    omega (
      arith,
      same,
      checks_bounds t (step v e) es bs h',
      all_times-append t (started v e) (checks (step v e) es),
    )

step_address :
    (t : ℕ) (ip : String) (v : Verifier) (e : Event)
    → By t e
    → length (times_of ip v.per_ip) ≤ 3
    → (length (times_of ip (step v e).per_ip) ≤ 3)
      × (recent t (times_of ip (step v e).per_ip)
          ≡ recent t (times_of ip v.per_ip) + recent t (times_from ip (started v e)))
unfolding step allow_verify recent times_from mark_bad set_busy clear_busy
step_address t ip v (marks now tag) b h = ground arith
step_address t ip v (starts tag) b h = ground arith
step_address t ip v (ends tag) b h = ground arith
step_address t ip v (asks now tag j) b h =
    let kept = prune now minute (times_of j v.per_ip) in
    let m = insert j kept v.per_ip in
    ground (
      arith,
      eq_iff j ip,
      recent-prune t now (times_of j v.per_ip) b,
      length-prune now minute (times_of j v.per_ip),
      length-append kept (now ∷ []),
      recent-append t kept (now ∷ []),
      lookup-insert j ip kept v.per_ip,
      lookup-insert j j kept v.per_ip,
      eq_iff j j,
      lookup-insert j ip (times_of j m ++ (now ∷ [])) m,
    )

times_from-append :
    (t : ℕ) (ip : String) (xs ys : List (ℕ × String))
    → recent t (times_from ip (xs ++ ys))
      ≡ recent t (times_from ip xs) + recent t (times_from ip ys)
unfolding times_from recent
times_from-append t ip [] ys = omega arith
times_from-append t ip ((now, j) ∷ xs) ys = ground (arith, times_from-append t ip xs ys)

-- The same for one network address, of which the server has counted at most three: at most three of the
-- calls that are counted for it are less than a minute before `t`.
pub checks_address_bounds :
    (t : ℕ) (ip : String) (v : Verifier) (es : List Event)
    → All (By t) es
    → length (times_of ip v.per_ip) ≤ 3
    → recent t (times_of ip v.per_ip) + recent t (times_from ip (checks v es)) ≤ 3
unfolding checks times_from recent
checks_address_bounds t ip v [] b h = omega (arith, h, recent_bounds t (times_of ip v.per_ip))
checks_address_bounds t ip v (e ∷ es) (b, bs) h =
    let (h', same) = step_address t ip v e b h in
    omega (
      arith,
      same,
      checks_address_bounds t ip (step v e) es bs h',
      times_from-append t ip (started v e) (checks (step v e) es),
    )

-- No event is earlier than `t`.
abbrev pub From : ℕ → Event → Type 0
From t (asks now tag ip) = Unit
From t (marks now tag) = t ≤ now
From t (starts tag) = Unit
From t (ends tag) = Unit

abbrev BadSince : String → ℕ → Verifier → Type 0
BadSince tag t v = (s : ℕ) × (lookup tag v.bad ≡ some s) × (t ≤ s)

step-BadSince :
    (tag : String) (t : ℕ) (v : Verifier) (e : Event)
    → From t e
    → BadSince tag t v
    → BadSince tag t (step v e)
unfolding step allow_verify mark_bad set_busy clear_busy
step-BadSince tag t v (asks now k ip) f (s, h, l) = (s, ground arith, l)
step-BadSince tag t v (marks now k) f (s, h, l) = elim (Bool-cases (str_eq k tag)) [
  | inl e ↦ (now, ground (arith, lookup-insert k tag now v.bad), f)
  | inr e ↦ (s, ground (arith, lookup-insert k tag now v.bad), l)
]
step-BadSince tag t v (starts k) f h = h
step-BadSince tag t v (ends k) f h = h

run-BadSince :
    (tag : String) (t : ℕ) (v : Verifier) (es : List Event)
    → All (From t) es
    → BadSince tag t v
    → BadSince tag t (run v es)
unfolding run
run-BadSince tag t v [] f h = h
run-BadSince tag t v (e ∷ es) (f, fs) h =
    run-BadSince tag t (step v e) es fs (step-BadSince tag t v e f h)

-- Once a payment was found bad at `t`, and whatever calls follow of which none marks at an earlier
-- time, the tag is refused for the ten minutes from `t`, from every address and also while a check of
-- it runs.
pub mark_bad-refuses :
    (tag ip : String) (t now : ℕ) (v : Verifier) (es : List Event)
    → All (From t) es
    → now < t + 600000000000
    → (allow_verify now tag ip (run (mark_bad t tag v) es)).1 ≡ false
unfolding allow_verify mark_bad
mark_bad-refuses tag ip t now v es f l =
    let (s, h, k) =
      run-BadSince tag t (mark_bad t tag v) es f
        (t, ground (arith, lookup-insert tag tag t v.bad, eq_iff tag tag), omega arith) in
    ground (arith, h, k, l)

-- For every run of calls none of which is later than `t`, from a server that has counted none so far: of
-- the calls that are let through for a tag of which no check is running, at most twelve are less than a
-- minute before `t`, and at most three of those from any one network address. A call for a tag that is
-- being checked, and was not found bad within ten minutes, is besides let through every time: it changes
-- nothing, and these limits do not see it.
pub checks_are_limited :
    (t : ℕ) (ip : String) (v : Verifier) (es : List Event)
    → All (By t) es
    → v.global ≡ []
    → v.per_ip ≡ []
    → (recent t (all_times (checks v es)) ≤ 12)
      × (recent t (times_from ip (checks v es)) ≤ 3)
      × ((now : ℕ) (tag from : String)
          → is_busy (run v es) tag ≡ true
          → is_bad (run v es) now tag ≡ false
          → allow_verify now tag from (run v es) ≡ (run v es, true))
unfolding lookup allow_verify
checks_are_limited t ip v es b g p =
    let all = checks_bounds t v es b (ground (arith, g)) in
    let one = checks_address_bounds t ip v es b (ground (arith, p)) in
    (
      omega (arith, all),
      omega (arith, one),
      λ now tag from busy good. rw (allow_verify, good, busy) refl,
    )
