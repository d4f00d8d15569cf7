-- ===== src/Relay/Pairing.antt =====
-- sail/relay/pairing.go and owner.go: pairing a wallet with a relay, and the circuits that ride free.
-- The hashes, the signature check and the text form of a key are parameters; a file on disk is its
-- parsed content. A code is given by its bytes. Times are unix seconds.
pub mod Attempts
pub mod Admission
use Prim.Native.String.{String}
use text.Mathlib.Text.{◌==◌ as str_eq}
use sailnet.Common.{ℕ, ◌+◌, ◌-◌, ◌*◌, ◌/◌, List, [], ◌∷◌, ◌++◌, Bool, true, false, not, ◌&&◌, ◌||◌}
use sailnet.Common.{ltb, leb, ◌==◌, if◌then◌else◌, length, take, drop, Option, none, some, Bytes}
use sailnet.Common.{bytes_eq, signed_lt}
use sailnet.Relay.Quota.{Quota, credit, add, known, remaining}

abbrev pub pairing_attempts : ℕ
pairing_attempts = 3

pub record PairingFile : Type 0 where
  pub salt : String
  pub hash : String
  pub expires : ℕ
  pub attempts : ℕ

-- `os.ReadFile` and `json.Unmarshal`: no file, a file that is not the JSON, or its content.
pub data Disk : Type 0 where
  missing : Disk
  corrupt : Disk
  holds : PairingFile → Disk

pub record Server : Type 0 where
  pub pairing_path : Bool  -- `s.PairingFile != ""`
  pub disk : Disk
  pub owner : Option Bytes  -- the zero key is none
  pub owners : List Bytes  -- the keys of the map
  pub owners_path : Bool
  pub owners_disk : List Bytes
  pub quota : Option Quota
  pub relay_key : Option Bytes

pub data Outcome : Type 0 where
  paired : Outcome
  not_set_up : Outcome
  no_code : Outcome
  expired : Outcome
  too_many : Outcome
  wrong_code : ℕ → Outcome
  not_pairable : Outcome

-- `strings.TrimSpace` on ASCII, and `strings.ReplaceAll(…, " ", "")`.
pub is_space : ℕ → Bool
is_space c = c == 32 || (leb 9 c && leb c 13)

pub trim_left : Bytes → Bytes
unfolding is_space
trim_left [] = []
trim_left (c ∷ r) = if is_space c then trim_left r else c ∷ r

pub trim_right : Bytes → Bytes
unfolding is_space
trim_right [] = []
trim_right (c ∷ r) =
    let rest = trim_right r in
    if is_space c then (elim rest [ [] ↦ [] | d ∷ s ↦ c ∷ (d ∷ s) ]) else c ∷ rest

pub without_spaces : Bytes → Bytes
without_spaces [] = []
without_spaces (c ∷ r) = if c == 32 then without_spaces r else c ∷ without_spaces r

pub clean_code : Bytes → Bytes
unfolding trim_left trim_right without_spaces
clean_code code = without_spaces (trim_right (trim_left code))

pub has_owner : Bytes → List Bytes → Bool
has_owner k [] = false
has_owner k (o ∷ r) = bytes_eq o k || has_owner k r

-- `addOwner`: the set, and the file if there is one.
pub add_owner : Server → Bytes → Server
unfolding has_owner
add_owner s k =
    let os = if has_owner k s.owners then s.owners else k ∷ s.owners in
    record s { owners = os; owners_disk = if s.owners_path then os else s.owners_disk }

-- The entries of a list of keys that have 32 bytes, added to a set: the loop of `LoadOwners`.
pub load_owners : List (Option Bytes) → List Bytes → List Bytes
unfolding has_owner
load_owners [] os = os
load_owners (none ∷ r) os = load_owners r os
load_owners (some k ∷ r) os =
    load_owners r (if length k == 32 then (if has_owner k os then os else k ∷ os) else os)

-- What `os.WriteFile` and `os.Remove` make of the file; the code looks at the error of neither.
pub record Files : Type 0 where
  pub write : PairingFile → Disk → Disk
  pub remove : Disk → Disk

module _ (files : Files) (pairing_hash : String → Bytes → String)
    (from_hex : String → Option Bytes) where
  pub removed : Server → Server
  removed s = record s { disk = files.remove s.disk }

  -- `tryPair`, from the comparison on; `pf` is what was read of the file, which may hold something else
  -- by now.
  pub compare_code : Server → PairingFile → String → Bytes → Server × Outcome
  unfolding add_owner removed
  compare_code s pf owner_hex code =
      if str_eq (pairing_hash pf.salt code) pf.hash
      then (elim (from_hex owner_hex) [
        | none ↦ (removed s, not_pairable)
        | some pub_key ↦
            if length pub_key == 32
            then (add_owner (removed s) pub_key, paired)
            else (removed s, not_pairable)
      ])
      else (
        record s { disk = files.write (record pf { attempts = pf.attempts + 1 }) s.disk },
        wrong_code (pf.attempts + 1),
      )

  -- `tryPair` behind `os.ReadFile`, which gave `read`. No lock is held from the one to the other: in
  -- between, other connections do the same.
  pub answer_pair : Disk → Server → ℕ → String → Bytes → Server × Outcome
  unfolding compare_code clean_code removed
  answer_pair missing s now owner_hex code = (s, if s.pairing_path then no_code else not_set_up)
  answer_pair corrupt s now owner_hex code =
      if s.pairing_path then (removed s, expired) else (s, not_set_up)
  answer_pair (holds pf) s now owner_hex code =
      if not s.pairing_path
      then (s, not_set_up)
      else (if leb pf.expires now
          then (removed s, expired)
          else (if leb pairing_attempts pf.attempts
              then (removed s, too_many)
              else compare_code s pf owner_hex (clean_code code)))

  -- The whole of `tryPair`, when nothing happens in between.
  pub try_pair : Server → ℕ → String → Bytes → Server × Outcome
  unfolding answer_pair
  try_pair s now owner_hex code = answer_pair s.disk s now owner_hex code

-- `OwnerTag`, `PairingTag`, `VerifyCreate` and the hex form of a key.
pub record Crypto : Type 0 where
  pub owner_tag : Bytes → Bytes → Bytes
  pub pairing_tag : Bytes → Bytes → Bytes
  pub verify_create : Bytes → Bytes → Bytes → Bytes → Bool
  pub to_hex : Bytes → String
  pub quota_key : String → String

abbrev pub owner_bytes : ℕ
owner_bytes = 1099511627776

abbrev pub pairing_bytes : ℕ
pairing_bytes = 262144

module _ (c : Crypto) where
  unfoldable pub find_owner : Bytes → Bytes → List Bytes → Option Bytes
  find_owner relay tag [] = none
  find_owner relay tag (o ∷ r) =
      if bytes_eq tag (c.owner_tag relay o) then some o else find_owner relay tag r

  unfoldable pub owner_for : Server → Bytes → Option Bytes
  unfolding find_owner
  owner_for s tag = elim s.relay_key [
    | none ↦ none
    | some relay ↦ elim s.owner [
      | none ↦ find_owner relay tag s.owners
      | some o ↦
          if bytes_eq tag (c.owner_tag relay o) then some o else find_owner relay tag s.owners
    ]
  ]

  -- The grant of `ownerCreate`: a new credit, or a top-up when less than half of it is left.
  unfoldable pub grant : Quota → String → Bytes → Quota
  grant q tag owner =
      let (q', fresh) = credit c.quota_key q tag owner_bytes (c.to_hex owner) in
      if not fresh && signed_lt (remaining c.quota_key q' tag) (owner_bytes / 2)
      then (add c.quota_key q' tag owner_bytes).0
      else q'

  unfoldable pub owner_create : Server → String → Bytes → Bytes → Bytes → Server × Bool
  unfolding owner_for grant
  owner_create s tag tag_bytes client_pub sig = elim s.quota [
    | none ↦ (s, false)
    | some q ↦ elim (owner_for s tag_bytes) [
      | none ↦ (s, false)
      | some o ↦
          if c.verify_create o client_pub tag_bytes sig
          then (record s { quota = some (grant q tag o) }, true)
          else (s, false)
    ]
  ]

  -- The bytes of "pair:".
  abbrev pub pair_prefix : Bytes
  pair_prefix = 112 ∷ 97 ∷ 105 ∷ 114 ∷ 58 ∷ []

  -- A code is active: unexpired, with guesses left.
  pub is_active : Disk → ℕ → Bool
  is_active missing now = false
  is_active corrupt now = false
  is_active (holds pf) now = ltb now pf.expires && ltb pf.attempts pairing_attempts

  unfoldable pub pairing_create :
      Server → ℕ → String → Bytes → Bytes → Bytes → Bytes → Server × Bool
  unfolding is_active
  pairing_create s now tag tag_bytes client_pub sig extra = elim s.quota [
    | none ↦ (s, false)
    | some q ↦ elim s.relay_key [
      | none ↦ (s, false)
      | some relay ↦
          let wallet = drop 5 extra in
          if s.pairing_path
            && (length extra == 37
                && (bytes_eq (take 5 extra) pair_prefix
                    && (bytes_eq tag_bytes (c.pairing_tag relay wallet)
                        && (c.verify_create wallet client_pub tag_bytes sig
                            && is_active s.disk now))))
          then (
            record s {
              quota = some (
                  if known c.quota_key q tag
                  then q
                  else (credit c.quota_key q tag pairing_bytes (c.to_hex wallet)).0);
            },
            true,
          )
          else (s, false)
    ]
  ]
