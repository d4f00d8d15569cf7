-- ===== src/Runs/Wallet.antt =====
-- sail/nano and sail/shape: an account, its cache, and a shaped connection.
use Prim.Native.String.{String}
use sailnet.Common.{
  ℕ, ◌+◌, ◌-◌, ◌≤◌, ◌≡◌, refl, arith, ◌++◌, List, [], ◌∷◌, true, false, Option, none, some, Bytes,
  length, drop,
}
use sailnet.Nano.State.{ChainState, View, get}
use sailnet.Nano.Account.{hash}
use sailnet.Nano.Account.{
  Account, Node, Crypto, Failure, Block, Error, unreachable, frontier, neutral, send_a_block,
  tagged_rep, work,
}
use sailnet.Nano.Account.Publish.{sent_of}
use sailnet.Nano.Account.Payment.{Pays, send_a_block_sound}
use sailnet.Nano.Account.Chain.{Chain, send_all, offline-Chain}
use sailnet.Nano.Account.Offline.{pay_offline}
use sailnet.Shape.Write.{Shaper, ChunkWriter, write, flush, record_limit, cut}
use sailnet.Shape.Write.Kept.{IsPadding, joined, write_keeps_bytes}
use sailnet.Shape.Write.Drain.{Fits, flush_empties, cut_wire_size}

abbrev cached : ChainState
cached = record {
  frontier = some (5 ∷ []);
  balance = 1000;
  rep = 8 ∷ [];
  opened = true;
  height = 12;
  at = 1700000000;
}

abbrev seen : View
seen = record { previous = 5 ∷ []; balance = 1000; representative = 8 ∷ []; opened = true }

abbrev toy : Crypto
toy = record {
  pubkey_of = λ t. some (3 ∷ []);
  blake = λ b. 77 ∷ [];
  sign = λ h. h;
  valid_work = λ root w t. true;
  work_cpu = λ root t. "ffff";
}

abbrev wallet : Account
wallet = record { address = "nano_w"; public = 3 ∷ []; cpu = true }

abbrev offline : Node
offline = record {
  info = unreachable;
  process = λ b t. some (record { old_block = false; semantic = false });
  cached_work = λ root t. some "aaaa";
  work_generate = λ root t. none;
}

untagged : tagged_rep wallet.public ≡ false
unfolding tagged_rep drop
untagged = refl

send_a_block_sound_example :
    ((h : Bytes) (b : Block)
      → sent_of (send_a_block toy wallet offline (some cached) 5 "nano_r" 300).1 ≡ some (h, b)
      → (v : View) × ((frontier toy wallet offline (some cached) 5).1.0 ≡ some v)
        × Pays toy wallet
            (frontier toy wallet offline (some cached) 5).0
            (send_a_block toy wallet offline (some cached) 5 "nano_r" 300).0
            5
            v
            (some (3 ∷ []))
            300
            (neutral toy wallet v.representative)
            h
            b
        × (tagged_rep b.representative ≡ false))
    × (sent_of (send_a_block toy wallet offline (some cached) 5 "nano_r" 300).1 ≡ none
        → (send_a_block toy wallet offline (some cached) 5 "nano_r" 300).0
          ≡ (frontier toy wallet offline (some cached) 5).0)
send_a_block_sound_example =
    send_a_block_sound toy wallet offline (some cached) 5 "nano_r" 300 untagged

abbrev payments : List (Node × String × ℕ)
payments = (offline, "nano_r", 300) ∷ (offline, "nano_q", 900) ∷ (offline, "nano_q", 200) ∷ []

offline-Chain_example :
    Chain toy wallet
      (5 ∷ [])
      1000
      (send_all toy wallet payments (some cached) 5).1
      (get (send_all toy wallet payments (some cached) 5).0)
offline-Chain_example =
    offline-Chain toy wallet payments cached (5 ∷ []) 5 untagged refl (refl, (refl, (refl, tt)))

pay_offline_example :
    (h : Bytes) × (b : Block) × (sent_of
        (send_a_block toy wallet offline (some cached) 5 "nano_r" 300).1
      ≡ some (h, b))
    × (b.link ≡ 3 ∷ [])
    × (b.balance ≡ 1000 - 300)
    × (b.previous ≡ 5 ∷ [])
    × (hash toy b ≡ some h)
    × (b.signature ≡ toy.sign h)
    × (b.work ≡ "aaaa")
unfolding work
pay_offline_example =
    pay_offline toy wallet offline cached 5 (5 ∷ []) (3 ∷ []) (3 ∷ []) "aaaa" "nano_r" 300 refl refl
      refl (omega arith) (omega arith) refl refl refl (λ d e q. semantic_of d e q)
  where
    semantic_of :
        (d : Block) (e : Failure)
        → some (record { old_block = false; semantic = false }) ≡ some e
        → e.semantic ≡ false
    semantic_of d e q = ground (arith, q)

abbrev no_error : Option Error
no_error = none

abbrev receivables : List (Node × Option Bytes × ℕ)
receivables = (offline, some (9 ∷ []), 50) ∷ []

abbrev plain : ChunkWriter
plain = record { wire_size = λ n. n + 22; takes = λ out c. true }

abbrev shaper : Shaper
shaper = record {
  params = record { front_k = 1; front_budget = 100; max_record = 4; min_record = 2 };
  front = 30 ∷ [];
  budget = 100;
  queue = [];
  padding = 0;
  data_sent = 0;
}

write_keeps_bytes_example :
    let p = write plain (λ n. 0 ∷ 0 ∷ []) shaper (1 ∷ 2 ∷ 3 ∷ []) [] in
    (pads : Bytes) × (joined p.out ++ p.shaper.queue
      ≡ (joined [] ++ ([] ++ (1 ∷ 2 ∷ 3 ∷ []))) ++ pads)
    × IsPadding (λ n. 0 ∷ 0 ∷ []) 0 pads p.shaper.padding
    × (p.shaper.padding ≡ 0 + length pads)
    × (p.shaper.data_sent ≡ 0 + 3)
write_keeps_bytes_example = write_keeps_bytes (λ n. 0 ∷ 0 ∷ []) plain shaper (1 ∷ 2 ∷ 3 ∷ []) []

abbrev loaded : Shaper
loaded = record shaper { queue = 1 ∷ 2 ∷ 3 ∷ 4 ∷ 5 ∷ 6 ∷ [] }

flush_empties_example :
    (new : List Bytes) × ((flush plain loaded []).out ≡ [] ++ new)
    × Fits plain (record_limit plain loaded.params) new
    × ((flush plain loaded []).failed ≡ false → length (flush plain loaded []).shaper.queue ≡ 0)
unfolding record_limit
flush_empties_example = flush_empties plain loaded [] (omega arith)

cut_wire_size_example : plain.wire_size (cut plain loaded.params 90) ≤ 4 + 22
unfolding record_limit
cut_wire_size_example = cut_wire_size plain loaded.params 90 22 (λ n. refl) (omega arith)
