-- ===== src/Relay/Faucet/Refunds.antt =====
-- sail/relay/faucet.go: claims whose send failed.
use Prim.Native.String.{String}
use text.Mathlib.TextEquality.{eq_iff}
use sailnet.Common.{ℕ, ◌+◌, ◌≤◌, ◌<◌, ◌≡◌, ◌≢◌, arith, Bool, false, ◌&&◌, none}
use sailnet.Common.{lookup, insert, lookup-insert, lookup-erase, add64, sub64, word}
use sailnet.Relay.Faucet.{
  Faucet, FaucetState, Claim, admitted, admit, refund, settle, roll, count_at, day_of, finish,
}

-- An admitted claim whose send fails, or for which the faucet is not configured, with nothing in
-- between: the answer is 503, the count of its address is what it was on that day before the claim,
-- and the account is free to claim again. The counts are 64-bit patterns.
-- (The comment at the count says that a claim is counted even
-- if the send fails.)
pub failed_claim_is_returned :
    (f : Faucet) (now later : ℕ) (acct : String) (c : Claim) (sent : Bool) (s : FaucetState)
    → (admit now acct c s).1 ≡ admitted
    → (c.payable && sent) ≡ false
    → count_at c.ip_key (roll now s).ips < word
    → c.claims < word
    → let r = finish f later acct c sent (admit now acct c s).0 in
      (r.1.code ≡ 503)
      × (count_at c.ip_key r.0.ips ≡ count_at c.ip_key (roll now s).ips)
      × (lookup acct r.0.accounts ≡ none)
unfolding finish refund admit settle
failed_claim_is_returned f now later acct c sent s h p hw hc =
    let n = add64 (count_at c.ip_key (roll now s).ips) c.claims in
    let m = insert c.ip_key n (roll now s).ips in
    ground (
      arith,
      eq_iff c.ip_key c.ip_key,
      eq_iff acct acct,
      lookup-insert c.ip_key c.ip_key n (roll now s).ips,
      lookup-insert c.ip_key c.ip_key (sub64 n c.claims) m,
      lookup-erase acct acct (insert acct now (roll now s).accounts),
    )

-- A claim that is given back after the day has turned, when nothing is counted for its address yet:
-- the count goes below zero, so that address is admitted, for an account that has no claim of that
-- day, up to the limit and the returned claims together. Both numbers are below 2 ^ 62.
pub refund_after_rollover :
    (now : ℕ) (acct other : String) (c d : Claim) (s : FaucetState)
    → s.day ≡ day_of now
    → lookup c.ip_key s.ips ≡ none
    → acct ≢ other
    → count_at other s.accounts + 86400 ≤ now
    → d.ip_key ≡ c.ip_key
    → 0 < c.claims
    → c.claims < 4611686018427387904
    → d.limit < 4611686018427387904
    → d.claims ≤ d.limit + c.claims
    → (admit now other d (refund acct c s)).1 ≡ admitted
unfolding admit refund roll
refund_after_rollover now acct other c d s hd hn ho hl hk h0 h1 h2 h3 = ground (
  arith,
  eq_iff c.ip_key c.ip_key,
  eq_iff acct other,
  lookup-insert c.ip_key c.ip_key (sub64 0 c.claims) s.ips,
  lookup-erase acct other s.accounts,
)
