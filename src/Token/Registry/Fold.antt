-- ===== src/Token/Registry/Fold.antt =====
-- sail/token/state.go: what folding the events does to the registry.
use Prim.Native.String.{String}
use mathlib.Core.Path.{subst, ap₂}
use text.Mathlib.Text.{◌==◌ as str_eq}
use text.Mathlib.TextEquality.{eq_iff}
use sailnet.Common.{◌+◌, ◌≡◌, ◌≢◌, refl, sym, ap, ◌∙◌, arith, inl, inr, Bool-cases}
use sailnet.Common.{List, ◌∷◌, false, if◌then◌else◌, Option, none, some}
use sailnet.Common.{lookup, lookup-insert, Bytes, signed_lt}
use sailnet.Token.Ops.{op_register, op_alive, ok}
use sailnet.Token.Ops.{Amount, encode}
use sailnet.Token.Ops.Codec.{decode-encode_alive}
use sailnet.Token.Registry.{Relay, State, new_state, Event}
use sailnet.Token.Registry.{new_entry, write_entry, apply, CachedSend}
use sailnet.Token.Registry.{decode_rep_addr, events_of, apply_all, build, sort_events}

lookup-write_entry :
    (s : State) (a b : String) (o : Option Relay)
    → lookup b (write_entry s a o).relays ≡ (
        if str_eq a b
        then (elim o [ none ↦ lookup b s.relays | some r ↦ some r ])
        else lookup b s.relays)
lookup-write_entry s a b none = ground arith
lookup-write_entry s a b (some r) = lookup-insert a b r s.relays

abbrev entry_of : State → Event → Option Relay
entry_of s e = (new_entry s.treasury (lookup e.sender s.relays) e).0

-- An event changes the entry of its sender alone.
pub apply_other :
    (s : State) (e : Event) (a : String)
    → e.sender ≢ a
    → lookup a (apply s e).0.relays ≡ lookup a s.relays
apply_other s e a n =
    unfold apply in
    (lookup-write_entry (record s { events = s.events + 1 }) e.sender a (entry_of s e)
      ∙ ground (arith, eq_iff e.sender a))

apply-treasury : (s : State) (e : Event) → (apply s e).0.treasury ≡ s.treasury
unfolding apply
apply-treasury s e = go (entry_of s e)
  where
    go :
        (o : Option Relay)
        → (write_entry (record s { events = s.events + 1 }) e.sender o).treasury ≡ s.treasury
    go none = refl
    go (some r) = refl

lookup-apply :
    (s : State) (e : Event) (a : String)
    → lookup a (apply s e).0.relays ≡ (
        if str_eq e.sender a
        then (elim (entry_of s e) [ none ↦ lookup a s.relays | some r ↦ some r ])
        else lookup a s.relays)
unfolding apply
lookup-apply s e a =
    lookup-write_entry (record s { events = s.events + 1 }) e.sender a (entry_of s e)

entry_of-apply :
    (s : State) (e f : Event) → e.sender ≢ f.sender → entry_of (apply s e).0 f ≡ entry_of s f
entry_of-apply s e f n =
    ap₂ (λ (t : String) (o : Option Relay). (new_entry t o f).0) (apply-treasury s e)
      (apply_other s e f.sender n)

-- The order of events of different senders does not matter: either order leaves the same entry for
-- every account. So the registry is a function of each relay's own chain.
pub apply_commute :
    (s : State) (e f : Event) (a : String)
    → e.sender ≢ f.sender
    → lookup a (apply (apply s e).0 f).0.relays ≡ lookup a (apply (apply s f).0 e).0.relays
apply_commute s e f a n = ground (
  arith,
  lookup-apply s e a,
  lookup-apply s f a,
  lookup-apply (apply s e).0 f a,
  lookup-apply (apply s f).0 e a,
  entry_of-apply s e f n,
  entry_of-apply s f e (λ p. n (sym p)),
  eq_iff e.sender a,
  eq_iff f.sender a,
)

-- `LastSeen` never goes back: it only ever rises, in the order of int64 times.
abbrev pub NotBefore : Option Relay → Option Relay → Type 0
NotBefore none o = Unit
NotBefore (some r) none = ⊥
NotBefore (some r) (some q) = signed_lt q.last_seen r.last_seen ≡ false

entry-NotBefore :
    (s : State) (e : Event)
    → NotBefore
        (lookup e.sender s.relays)
        (elim (entry_of s e) [ none ↦ lookup e.sender s.relays | some r ↦ some r ])
unfolding new_entry
entry-NotBefore s e = go (lookup e.sender s.relays)
  where
    go :
        (o : Option Relay)
        → NotBefore o (elim (new_entry s.treasury o e).0 [ none ↦ o | some r ↦ some r ])
    go none = tt
    go (some r) = ground arith

NotBefore-refl : (o : Option Relay) → NotBefore o o
NotBefore-refl none = tt
NotBefore-refl (some r) = ground arith

-- No event, whatever its time, moves the last sign of life of any relay back, and none removes a
-- relay from the registry.
pub apply-NotBefore :
    (s : State) (e : Event) (a : String)
    → NotBefore (lookup a s.relays) (lookup a (apply s e).0.relays)
apply-NotBefore s e a = rw (lookup-apply s e a) (elim (Bool-cases (str_eq e.sender a)) [
  | inl same ↦
      let p : e.sender ≡ a = (eq_iff e.sender a).0 same in
      rw same (
        subst
          (λ b.
            NotBefore (lookup b s.relays)
              (elim (entry_of s e) [ none ↦ lookup b s.relays | some r ↦ some r ]))
          p (entry-NotBefore s e))
  | inr other ↦ rw other (NotBefore-refl (lookup a s.relays))
])

-- A relay is in the registry only if it registered with the treasury: an event of another kind, or a
-- REGISTER sent elsewhere, adds no relay.
pub apply_unregistered :
    (s : State) (e : Event) (a : String)
    → lookup a s.relays ≡ none
    → (lookup a (apply s e).0.relays ≢ none)
    → (e.sender ≡ a) × (e.op.code ≡ op_register) × (e.recipient ≡ s.treasury)
unfolding new_entry
apply_unregistered s e a h n =
    ground (arith, lookup-apply s e a, eq_iff e.sender a, eq_iff e.recipient s.treasury)

-- A heartbeat on the ledger leaves no event: the block of a relay that encodes ALIVE is passed over
-- when the registry is built, and the registry is the same as without it.
pub build_alive :
    (address_to_pubkey : String → Option Bytes) (treasury : String) (b : CachedSend) (a : Amount)
    (aux rep : Bytes) (r : List (Option CachedSend))
    → address_to_pubkey b.rep ≡ some rep
    → encode (record { code = op_alive; amount = a; aux = aux }) ≡ ok rep
    → build address_to_pubkey treasury (some b ∷ r) ≡ build address_to_pubkey treasury r
unfolding build events_of decode_rep_addr
build_alive address_to_pubkey treasury b a aux rep r h e =
    let skipped : events_of address_to_pubkey treasury (some b ∷ r)
        ≡ events_of address_to_pubkey treasury r =
      ground (arith, decode-encode_alive a aux rep e) in
    ap (λ (t : List Event). apply_all (new_state treasury) (sort_events t)) skipped
