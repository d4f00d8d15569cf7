-- ===== src/Relay/Watch.antt =====
-- sail/relay/watch.go: the table of watched accounts. A connection is a number; the connections of an
-- account are a list without doubles. The upstream socket and the JSON text are not modelled.
pub mod Table
pub mod Union
use Prim.Native.String.{String}
use text.Mathlib.Text.{◌==◌ as str_eq}
use mathlib.Core.Option.{get_or}
use sailnet.Common.{ℕ, suc, List, [], ◌∷◌, ◌++◌, map, Bool, true, false, not, ◌||◌}
use sailnet.Common.{ltb, ◌==◌, if◌then◌else◌, lookup, insert}

abbrev pub Subs : Type 0
Subs = List (String × List ℕ)

-- `conns[in]`.
pub has : ℕ → List ℕ → Bool
has i [] = false
has i (j ∷ js) = (j == i) || has i js

pub add : ℕ → List ℕ → List ℕ
add i js = if has i js then js else i ∷ js

pub delete : ℕ → List ℕ → List ℕ
delete i [] = []
delete i (j ∷ js) = let rest = delete i js in if j == i then rest else j ∷ rest

abbrev pub conns_of : String → Subs → List ℕ
conns_of acct subs = get_or (lookup acct subs) []

-- How many accounts a connection watches.
pub watching : ℕ → Subs → ℕ
watching i [] = 0
watching i ((acct, js) ∷ subs) = let n = watching i subs in if has i js then suc n else n

pub watch : String → ℕ → Subs → Subs
unfolding watching add
watch acct i subs =
    if ltb (watching i subs) 8 then insert acct (add i (conns_of acct subs)) subs else subs

-- An account with its connections, or nothing when it has none left.
abbrev pub entry : String → List ℕ → Subs
entry acct [] = []
entry acct (j ∷ js) = (acct, j ∷ js) ∷ []

pub unwatch : ℕ → Subs → Subs
unfolding delete
unwatch i [] = []
unwatch i ((acct, js) ∷ subs) = entry acct (delete i js) ++ unwatch i subs

-- The accounts of the subscription; the code sorts them.
pub accounts : Subs → List String
accounts subs = map (λ s. s.0) subs

pub union : List ℕ → List ℕ → List ℕ
unfolding add
union [] js = js
union (i ∷ is) js = add i (union is js)

-- The connections that a confirmation is pushed to.
pub targets : String → String → Subs → List ℕ
unfolding union
targets acct link subs = union (conns_of acct subs) (union (conns_of link subs) [])

-- `known[a]`, and the accounts of one list that are not in another.
pub is_known : String → List String → Bool
is_known a [] = false
is_known a (b ∷ bs) = str_eq b a || is_known a bs

pub missing : List String → List String → List String
unfolding is_known
missing known [] = []
missing known (a ∷ cur) =
    let rest = missing known cur in if is_known a known then rest else a ∷ rest

-- One round of the loop that keeps the subscription: the accounts added and those deleted.
pub update : List String → List String → List String × List String
unfolding missing
update known cur = (missing known cur, missing cur known)
