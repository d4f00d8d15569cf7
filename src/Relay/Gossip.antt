-- ===== src/Relay/Gossip.antt =====
-- sail/relay/gossip.go and ident.go: the endpoint of a relay, the records that relays sign and hand on,
-- and the table of those a registry keeps. `now` counts nanoseconds, the time of a record seconds, an int64.
-- Hashes, signatures and the texts of addresses and hex are parameters.
pub mod Table
pub mod Newest
use Prim.Native.String.{String}
use text.Mathlib.Text.{◌==◌ as str_eq}
use sailnet.Common.{ℕ, ◌+◌, ◌-◌, ◌*◌, ◌/◌, List, [], ◌∷◌, ◌++◌, Bool, true, false, not, ◌&&◌, ◌||◌}
use sailnet.Common.{ltb, leb, ◌==◌, if◌then◌else◌, length, take, drop, Option, none, some}
use sailnet.Common.{
  lookup, insert, Bytes, byte_at, bytes_eq, put_uint16, put_uint32, put_uint64, get_uint16,
}
use sailnet.Common.{replicate, word, half_word, signed_lt}
use sailnet.Relay.Spot.{SpotOffer, spot_for}

-- An IPv4 address is its four bytes.
pub record Descriptor : Type 0 where
  pub ip : Bytes
  pub port : ℕ
  pub cert_fp : Bytes

unfoldable pub encode : Descriptor → Bytes
encode d = d.ip ++ (put_uint16 d.port ++ d.cert_fp)

pub decode_descriptor : Bytes → Option Descriptor
decode_descriptor a =
    if bytes_eq a (replicate 12 0)
    then none
    else some (record { ip = take 4 a; port = get_uint16 (drop 4 a); cert_fp = take 6 (drop 6 a) })

pub record SignedRecord : Type 0 where
  pub account : String
  pub country : String
  pub asn : ℕ
  pub min_rate : ℕ
  pub flags : ℕ
  pub desc : String
  pub host : String
  pub time : ℕ
  pub sig : String
  pub spot : Option SpotOffer

pub record RelayInfo : Type 0 where
  pub account : String
  pub pub_key : Bytes
  pub country : String
  pub asn : ℕ
  pub min_rate : ℕ
  pub flags : ℕ
  pub desc : Descriptor
  pub host : String
  pub unlisted : Bool
  pub secret : Bytes
  pub spot_rate : ℕ
  pub spot_until : ℕ

-- What the records use of other packages.
pub record Crypto : Type 0 where
  pub address_to_pubkey : String → Option Bytes
  pub of_hex : String → Option Bytes
  pub text : String → Bytes
  pub hash : Bytes → Bytes
  pub verify : Bytes → Bytes → Bytes → Bool

pub data Refusal : Type 0 where
  bad_address bad_signature expired bad_descriptor empty_descriptor : Refusal

pub data Verdict : Type 0 where
  refused : Refusal → Verdict
  describes : RelayInfo → Verdict

-- The limits of a record's age: 48 hours, and ten minutes ahead of the clock.
abbrev pub record_ttl : ℕ
record_ttl = 172800000000000

abbrev pub second : ℕ
second = 1000000000

pub is_old : ℕ → ℕ → Bool
is_old now t =
    if ltb t half_word
    then ltb (t * second + record_ttl) now
    else ltb record_ttl (now + (word - t) * second)

pub is_early : ℕ → ℕ → Bool
is_early now t = ltb t half_word && ltb (now + 600000000000) (t * second)

-- What a record whose descriptor is `d` says.
pub described : ℕ → SignedRecord → Bytes → Descriptor → RelayInfo
described now r key d =
    let (rate, until) = spot_for r.spot r.min_rate (now / second) in
    record {
      account = r.account;
      pub_key = key;
      country = r.country;
      asn = r.asn;
      min_rate = r.min_rate;
      flags = r.flags;
      desc = d;
      host = r.host;
      unlisted = false;
      secret = replicate 16 0;
      spot_rate = rate;
      spot_until = until;
    }

pub read_descriptor : ℕ → SignedRecord → Bytes → Option Bytes → Verdict
unfolding described
read_descriptor now r key none = refused bad_descriptor
read_descriptor now r key (some a) =
    if not (length a == 12) then refused bad_descriptor else elim (decode_descriptor a) [
      | none ↦ refused empty_descriptor
      | some d ↦ describes (described now r key d)
    ]

module _ (c : Crypto) where
  pub digest : SignedRecord → Bytes
  digest r = c.hash (
      c.text "sailnet-record"
      ++ (c.text r.account
          ++ (c.text r.country
              ++ (put_uint32 r.asn
                  ++ (put_uint32 r.min_rate
                      ++ (put_uint16 r.flags
                          ++ (c.text r.desc ++ (c.text r.host ++ put_uint64 r.time))))))))

  pub is_signed : SignedRecord → Bytes → Bool
  unfolding digest
  is_signed r key = elim (c.of_hex r.sig) [ none ↦ false | some s ↦ c.verify key (digest r) s ]

  pub verify_record : ℕ → SignedRecord → Verdict
  unfolding is_signed read_descriptor
  verify_record now r = elim (c.address_to_pubkey r.account) [
    | none ↦ refused bad_address
    | some key ↦
        if not (is_signed r key)
        then refused bad_signature
        else (if is_old now r.time || is_early now r.time
            then refused expired
            else read_descriptor now r key (c.of_hex r.desc))
  ]

abbrev pub Table : Type 0
Table = List (String × SignedRecord)

-- The addresses that are not for the open network: private, loopback and unspecified ones.
pub is_inner : Bytes → Bool
is_inner ip =
    byte_at 0 ip == 10
    || (byte_at 0 ip == 172 && leb 16 (byte_at 1 ip) && ltb (byte_at 1 ip) 32)
    || (byte_at 0 ip == 192 && byte_at 1 ip == 168)
    || byte_at 0 ip == 127
    || bytes_eq ip (replicate 4 0)

-- A record newer than the one of its account, or of an account for which there is room.
pub is_new : SignedRecord → Table → Bool
is_new rec table = elim (lookup rec.account table) [
  | none ↦ not (leb 500 (length table))
  | some old ↦ signed_lt old.time rec.time
]

-- The tests under the lock on a record that says what `ri` says.
pub store : SignedRecord → RelayInfo → Table → Table × Bool
unfolding is_new is_inner
store rec ri table =
    if not (is_new rec table) || is_inner ri.desc.ip
    then (table, false)
    else (insert rec.account rec table, true)

module _ (c : Crypto) where
  pub add_gossip : ℕ → SignedRecord → Table → Table × Bool
  unfolding verify_record store
  add_gossip now rec table = elim (verify_record c now rec) [
    | refused e ↦ (table, false)
    | describes ri ↦ store rec ri table
  ]

-- `Records`: what is left of the table, and the records handed out; the code visits them in any order.
pub drop_old : ℕ → Table → Table
drop_old now [] = []
drop_old now ((acct, rec) ∷ table) =
    let rest = drop_old now table in if is_old now rec.time then rest else (acct, rec) ∷ rest

pub handed_out : Option SignedRecord → Table → List SignedRecord
handed_out self [] = []
handed_out self ((acct, rec) ∷ table) =
    let rest = handed_out self table in
    let is_own : Bool = elim self [ none ↦ false | some s ↦ str_eq acct s.account ] in
    if is_own then rest else rec ∷ rest

pub records : ℕ → Option SignedRecord → Table → Table × List SignedRecord
unfolding drop_old handed_out
records now self table =
    let kept = drop_old now table in
    let own : List SignedRecord = elim self [ none ↦ [] | some s ↦ s ∷ [] ] in
    (kept, own ++ handed_out self kept)
