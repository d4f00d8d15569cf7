-- ===== src/Relay/Faucet/Limits.antt =====
-- sail/relay/faucet.go: the limits per account and per network address, over runs in which the
-- sections of several requests interleave.
use Prim.Native.String.{String}
use text.Mathlib.Text.{◌==◌ as str_eq}
use text.Mathlib.TextEquality.{eq_iff}
use sailnet.Common.{ℕ, ◌+◌, ◌≤◌, ◌<◌, ◌≡◌, ◌≢◌, arith, List, [], ◌∷◌, All, inl, inr}
use sailnet.Common.{if◌then◌else◌, lookup-insert, lookup-erase, add64, Bool-cases}
use sailnet.Relay.Faucet.{
  FaucetState, Claim, Verdict, admitted, account_used, address_used, admit, refund, settle, roll,
  count_at, day_of,
}

pub data Event : Type 0 where
  claim_at : ℕ → String → Claim → Event
  give_back : String → Claim → Event
  paid_at : ℕ → Event

pub step : FaucetState → Event → FaucetState
step s (claim_at now acct c) = (admit now acct c s).0
step s (give_back acct c) = refund acct c s
step s (paid_at now) = settle now s

pub run : FaucetState → List Event → FaucetState
unfolding step
run s [] = s
run s (e ∷ es) = run (step s e) es

abbrev pub KeepsClaim : String → Event → Type 0
KeepsClaim acct (claim_at now a c) = Unit
KeepsClaim acct (give_back a c) = acct ≢ a
KeepsClaim acct (paid_at now) = Unit

step_since :
    (acct : String) (t : ℕ) (s : FaucetState) (e : Event)
    → KeepsClaim acct e
    → t ≤ count_at acct s.accounts
    → t ≤ count_at acct (step s e).accounts
unfolding step admit refund settle roll
step_since acct t s (claim_at now a c) k h =
    ground (arith, lookup-insert a acct now s.accounts, eq_iff a acct)
step_since acct t s (give_back a c) k h =
    ground (arith, lookup-erase a acct s.accounts, eq_iff a acct)
step_since acct t s (paid_at now) k h = h

run_since :
    (acct : String) (t : ℕ) (s : FaucetState) (es : List Event)
    → All (KeepsClaim acct) es
    → t ≤ count_at acct s.accounts
    → t ≤ count_at acct (run s es).accounts
unfolding run
run_since acct t s [] k h = h
run_since acct t s (e ∷ es) (k, ks) h =
    run_since acct t (step s e) es ks (step_since acct t s e k h)

admit_marks :
    (now : ℕ) (acct : String) (c : Claim) (s : FaucetState)
    → (admit now acct c s).1 ≡ admitted
    → now ≤ count_at acct (admit now acct c s).0.accounts
unfolding admit roll
admit_marks now acct c s h =
    ground (arith, lookup-insert acct acct now s.accounts, eq_iff acct acct)

admit_refuses :
    (now : ℕ) (acct : String) (c : Claim) (s : FaucetState)
    → now < count_at acct s.accounts + 86400
    → (admit now acct c s).1 ≡ account_used
unfolding admit roll
admit_refuses now acct c s h = ground arith

-- Once an account's claim is admitted, and whatever the requests of others, its own other requests and
-- the ends of the sends interleave: as long as the claim is not given back, every claim of that
-- account in the 24 hours that follow is refused, from whichever address and for whichever grant.
pub admit_once_a_day :
    (now : ℕ) (acct : String) (c : Claim) (s : FaucetState) (es : List Event) (later : ℕ)
    (d : Claim)
    → (admit now acct c s).1 ≡ admitted
    → All (KeepsClaim acct) es
    → later < now + 86400
    → (admit later acct d (run (admit now acct c s).0 es)).1 ≡ account_used
admit_once_a_day now acct c s es later d h k l =
    admit_refuses later acct d (run (admit now acct c s).0 es) (
      omega (arith, l, run_since acct now (admit now acct c s).0 es k (admit_marks now acct c s h)))

-- What a request costs the counter `k`, and what a run of them does.
pub charged : String → Claim → Verdict → ℕ
charged k c admitted = if str_eq c.ip_key k then c.claims else 0
charged k c account_used = 0
charged k c address_used = 0

pub granted : String → FaucetState → List Event → ℕ
unfolding step charged
granted k s [] = 0
granted k s (claim_at now acct c ∷ es) =
    let rest = granted k (step s (claim_at now acct c)) es in
    charged k c (admit now acct c s).1 + rest
granted k s (e ∷ es) = granted k (step s e) es

admit_charges :
    (l : ℕ) (k : String) (now : ℕ) (acct : String) (c : Claim) (s : FaucetState)
    → s.day ≡ day_of now
    → (c.ip_key ≡ k → c.limit ≡ l)
    → c.claims ≤ 4
    → l < 4611686018427387904
    → count_at k s.ips ≤ l
    → ((admit now acct c s).0.day ≡ s.day)
      × (count_at k (admit now acct c s).0.ips
          ≡ count_at k s.ips + charged k c (admit now acct c s).1)
      × (count_at k (admit now acct c s).0.ips ≤ l)
unfolding admit roll charged
admit_charges l k now acct c s hd hk hc hl h =
    let same = lookup-insert c.ip_key k (add64 (count_at c.ip_key s.ips) c.claims) s.ips in
    let eq = eq_iff c.ip_key k in
    elim (Bool-cases (str_eq c.ip_key k)) [
      | inl e ↦ ground (arith, same, eq, e, hk (eq.0 e))
      | inr e ↦ ground (arith, same, e)
    ]

-- On the day `d`, against `k` with the limit `l`, and with no claim given back.
abbrev pub OnDay : ℕ → String → ℕ → Event → Type 0
OnDay d k l (claim_at now acct c) = (day_of now ≡ d) × (c.ip_key ≡ k → c.limit ≡ l) × (c.claims ≤ 4)
OnDay d k l (give_back acct c) = ⊥
OnDay d k l (paid_at now) = Unit

-- On one day, for every counter with the limit `l` that has not passed it, and for every sequence of
-- requests none of which is given back: the claims admitted against it, with those counted before,
-- are at most `l`. The limit is below 2 ^ 62, and a request claims at most four.
pub granted_bounds :
    (d l : ℕ) (k : String) (s : FaucetState) (es : List Event)
    → s.day ≡ d
    → l < 4611686018427387904
    → count_at k s.ips ≤ l
    → All (OnDay d k l) es
    → count_at k s.ips + granted k s es ≤ l
unfolding granted step settle
granted_bounds d l k s [] hd hl h a = omega (arith, h)
granted_bounds d l k s (give_back acct c ∷ es) hd hl h (e, a) = absurd e
granted_bounds d l k s (paid_at now ∷ es) hd hl h (e, a) =
    granted_bounds d l k (settle now s) es hd hl h a
granted_bounds d l k s (claim_at now acct c ∷ es) hd hl h ((e1, e2, e3), a) =
    let (x, y, z) = admit_charges l k now acct c s (ground (arith, hd, e1)) e2 e3 hl h in
    let ih = granted_bounds d l k (admit now acct c s).0 es (ground (arith, x, hd)) hl z a in
    omega (arith, y, ih)
