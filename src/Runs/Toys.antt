-- ===== src/Runs/Toys.antt =====
-- A cipher and a hash for the runs.
use sailnet.Common.{ℕ, ◌+◌, ◌-◌, ◌≡◌, ap, [], ◌∷◌, ◌++◌, some, Bytes, length, take, replicate}
use sailnet.Common.{length-append, take-append, arith}
use sailnet.Wire.Replay.{ReplayWindow}
use sailnet.Wire.Onion.{Aead, HopKeys}
use sailnet.Wire.Resume.{Blake}

-- A cipher that only appends a tag.
unfoldable pub tagger : Aead
unfolding replicate
tagger = record {
  seal = λ key nonce text. text ++ replicate 16 0;
  unseal = λ key nonce box. some (take (length box - 16) box);
  unseal-seal = λ key nonce text. opened text;
  length-seal = λ key nonce text. sealed text;
}
  where
    sealed : (text : Bytes) → length (text ++ replicate 16 0) ≡ length text + 16
    sealed text = length-append text (replicate 16 0)

    opened :
        (text : Bytes)
        → some (take (length (text ++ replicate 16 0) - 16) (text ++ replicate 16 0)) ≡ some text
    opened text = ap some (
        take-append (length (text ++ replicate 16 0) - 16) text (replicate 16 0)
          (omega (arith, sealed text)))

abbrev pub unused : ReplayWindow
unused = record { high = 0; bits = 0 }

abbrev pub keys : ℕ → HopKeys
keys n = record {
  forward = n ∷ [];
  backward = (n + 100) ∷ [];
  fwd_seq = 0;
  bwd_seq = 0;
  fwd_win = unused;
  bwd_win = unused;
}

-- A hash whose sums are all zero.
abbrev pub zeros32 : Bytes
zeros32 =
    0 ∷ 0 ∷ 0 ∷ 0 ∷ 0 ∷ 0 ∷ 0 ∷ 0 ∷ 0 ∷ 0 ∷ 0 ∷ 0 ∷ 0 ∷ 0 ∷ 0 ∷ 0 ∷ 0 ∷ 0 ∷ 0 ∷ 0 ∷ 0 ∷ 0 ∷ 0 ∷ 0
    ∷ 0 ∷ 0 ∷ 0 ∷ 0 ∷ 0 ∷ 0 ∷ 0 ∷ 0 ∷ []

abbrev pub zeros : Blake
zeros = record { sum = λ b. zeros32; mac = λ k b. zeros32 }
