-- ===== src/Relay/Server/Verify.antt =====
-- sail/relay/server.go: `allowVerify` and `markBad`, which bound the ledger calls that strangers can
-- cause. A time is a count of nanoseconds; a call that holds the mutex is one step.
pub mod Bounds
use mathlib.Core.Option.{get_or}
use Prim.Native.String.{String}
use text.Mathlib.Text.{◌==◌ as str_eq}
use sailnet.Common.{ℕ, ◌-◌, ◌*◌, List, [], ◌∷◌, ◌++◌, Bool, true, false, not, ◌&&◌, ◌||◌}
use sailnet.Common.{ltb, leb, if◌then◌else◌, length, Option, none, some, lookup, insert, erase}

abbrev pub minute : ℕ
minute = 60000000000

pub record Verifier : Type 0 where
  pub bad : List (String × ℕ)
  pub busy : List (String × Bool)
  pub per_ip : List (String × List ℕ)
  pub global : List ℕ

abbrev pub fresh : Verifier
fresh = record { bad = []; busy = []; per_ip = []; global = [] }

-- `now.Sub(t) < window`.
abbrev pub within : ℕ → ℕ → ℕ → Bool
within now window t = ltb (now - t) window

pub prune : ℕ → ℕ → List ℕ → List ℕ
prune now window [] = []
prune now window (t ∷ ts) =
    let out = prune now window ts in if within now window t then t ∷ out else out

abbrev pub times_of : String → List (String × List ℕ) → List ℕ
times_of ip m = get_or (lookup ip m) []

abbrev pub is_busy : Verifier → String → Bool
is_busy v tag = get_or (lookup tag v.busy) false

abbrev pub is_bad : Verifier → ℕ → String → Bool
is_bad v now tag = elim (lookup tag v.bad) [ none ↦ false | some t ↦ within now (10 * minute) t ]

-- The lists with the entries of more than a minute ago left out.
abbrev pub pruned : ℕ → String → Verifier → Verifier
pruned now ip v = record v {
  per_ip = insert ip (prune now minute (times_of ip v.per_ip)) v.per_ip;
  global = prune now minute v.global;
}

-- The tests after the pruning.
abbrev pub count_in : ℕ → String → Verifier → Verifier × Bool
count_in now ip v =
    if leb 3 (length (times_of ip v.per_ip)) || leb 12 (length v.global) then (v, false) else (
      record v {
        per_ip = insert ip (times_of ip v.per_ip ++ (now ∷ [])) v.per_ip;
        global = v.global ++ (now ∷ []);
      },
      true,
    )

pub allow_verify : ℕ → String → String → Verifier → Verifier × Bool
unfolding prune
allow_verify now tag ip v =
    if is_bad v now tag
    then (v, false)
    else (if is_busy v tag then (v, true) else count_in now ip (pruned now ip v))

pub mark_bad : ℕ → String → Verifier → Verifier
mark_bad now tag v = record v { bad = insert tag now v.bad }

-- `handleCreate` marks a tag while its check runs, and takes the mark away.
pub set_busy : String → Verifier → Verifier
set_busy tag v = record v { busy = insert tag true v.busy }

pub clear_busy : String → Verifier → Verifier
clear_busy tag v = record v { busy = erase tag v.busy }
