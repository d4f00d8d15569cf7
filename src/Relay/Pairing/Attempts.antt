-- ===== src/Relay/Pairing/Attempts.antt =====
-- sail/relay/pairing.go: a code works once, and is void after three wrong guesses.
use Prim.Native.String.{String}
use sailnet.Common.{ℕ, ◌+◌, ◌-◌, ◌≤◌, ◌<◌, ◌≡◌, refl, arith, ◌⊎◌, inl, inr}
use sailnet.Common.{
  ap, Option-cases, replicate, All, false, leb, List, [], ◌∷◌, true, Option, some, Bytes,
}
use sailnet.Common.{length, bytes_eq_refl}
use sailnet.Relay.Pairing.{
  answer_pair, Files, pairing_attempts, PairingFile, Disk, missing, corrupt, holds, Server, Outcome,
}
use sailnet.Relay.Pairing.{paired, wrong_code}
use sailnet.Relay.Pairing.{has_owner, add_owner, try_pair, clean_code}
use text.Mathlib.Text.{◌==◌ as str_eq}

-- One guess at a code: when, from which wallet, and what was typed.
pub record Guess : Type 0 where
  pub time : ℕ
  pub wallet : String
  pub code : Bytes

-- The guesses left on the disk.
abbrev pub left : Disk → ℕ
left (holds pf) = pairing_attempts - pf.attempts
left _ = 0

abbrev pub is_wrong : Outcome → ℕ
is_wrong (wrong_code n) = 1
is_wrong _ = 0

abbrev pub is_paired : Outcome → ℕ
is_paired paired = 1
is_paired _ = 0

has_owner-add_owner : (s : Server) (k : Bytes) → has_owner k (add_owner s k).owners ≡ true
unfolding add_owner has_owner
has_owner-add_owner s k = ground (arith, bytes_eq_refl k)

-- The file can be written and removed.
unfoldable pub IsWritable : Files → Type 0
IsWritable files =
    ((pf : PairingFile) (d : Disk) → files.write pf d ≡ holds pf)
    × ((d : Disk) → files.remove d ≡ missing)

module _ (files : Files) (pairing_hash : String → Bytes → String)
    (from_hex : String → Option Bytes) where
  abbrev pub guess : Server → Guess → Server × Outcome
  guess s g = try_pair files pairing_hash from_hex s g.time g.wallet g.code

  -- The guesses of a run: how many were answered "wrong code", and how many paired a wallet.
  pub guesses : Server → List Guess → Server × ℕ × ℕ
  guesses s [] = (s, 0, 0)
  guesses s (g ∷ r) =
      let (s', o) = guess s g in
      let (s'', wrong, done) = guesses s' r in (s'', is_wrong o + wrong, is_paired o + done)

  pub record IsRight (pf : PairingFile) (now : ℕ) (wallet : String) (code k : Bytes) : Type 0 where
    pub unexpired : now < pf.expires
    pub guesses : pf.attempts < pairing_attempts
    pub right_code : str_eq (pairing_hash pf.salt (clean_code code)) pf.hash ≡ true
    pub a_key : from_hex wallet ≡ some k
    pub key_size : length k ≡ 32

  -- A wallet is paired only by the right code of the file that was read, before it expires and with
  -- guesses left; then the key is an owner.
  pub answer_pair_sound :
      (read : Disk) (s : Server) (now : ℕ) (wallet : String) (code : Bytes)
      → (answer_pair files pairing_hash from_hex read s now wallet code).1 ≡ paired
      → (pf : PairingFile) × (k : Bytes) × (read ≡ holds pf)
        × IsRight pf now wallet code k
        × (has_owner k (answer_pair files pairing_hash from_hex read s now wallet code).0.owners
            ≡ true)
  unfolding answer_pair
  answer_pair_sound missing s now wallet code e = absurd (ground (arith, e))
  answer_pair_sound corrupt s now wallet code e = absurd (ground (arith, e))
  answer_pair_sound (holds pf) s now wallet code e = elim (Option-cases (from_hex wallet)) [
    | inl q ↦ absurd (ground (arith, e, q))
    | inr (k, q) ↦ (
      pf,
      k,
      refl,
      record {
        unexpired = ground (arith, e);
        guesses = ground (arith, e);
        right_code = ground (arith, e);
        a_key = q;
        key_size = ground (arith, e, q);
      },
      ground (arith, e, q, has_owner-add_owner (record s { disk = files.remove s.disk }) k),
    )
  ]

  -- Guesses that overlap: the file was read for all of them before the first of them went on.
  pub overlapping : Disk → Server → List Guess → Server × List Outcome
  overlapping read s [] = (s, [])
  overlapping read s (g ∷ gs) =
      let (s', o) = answer_pair files pairing_hash from_hex read s g.time g.wallet g.code in
      let (s'', os) = overlapping read s' gs in (s'', o ∷ os)

  -- A guess in time with a wrong code.
  abbrev pub IsWrong : PairingFile → Guess → Type 0
  IsWrong pf g =
      (g.time < pf.expires) × (str_eq (pairing_hash pf.salt (clean_code g.code)) pf.hash ≡ false)

  overlapping-Same :
      (pf : PairingFile) (gs : List Guess) (s : Server)
      → IsWritable files
      → s.pairing_path ≡ true
      → pf.attempts < pairing_attempts
      → All (IsWrong pf) gs
      → (s.disk ≡ holds (record pf { attempts = pf.attempts + 1 })) ⊎ (1 ≤ length gs)
      → ((overlapping (holds pf) s gs).1 ≡ replicate (length gs) (wrong_code (pf.attempts + 1)))
        × ((overlapping (holds pf) s gs).0.disk ≡ holds (record pf { attempts = pf.attempts + 1 }))
  unfolding overlapping answer_pair replicate IsWritable
  overlapping-Same pf [] s w p a all (inl d) = (refl, d)
  overlapping-Same pf [] s w p a all (inr l) = absurd (omega (arith, l))
  overlapping-Same pf (g ∷ gs) s w p a ((t, wrong), all) d =
      let more = record pf { attempts = pf.attempts + 1 } in
      let s' = record s { disk = files.write more s.disk } in
      let late : leb pf.expires g.time ≡ false = ground (arith, t) in
      let over : leb pairing_attempts pf.attempts ≡ false = ground (arith, a) in
      let here : answer_pair files pairing_hash from_hex (holds pf) s g.time g.wallet g.code
          ≡ (s', wrong_code (pf.attempts + 1)) =
        rw (answer_pair, p, late, over, wrong) refl in
      let (os, disk) = overlapping-Same pf gs s' w p a all (inl (w.0 more s.disk)) in
      rw (overlapping, here) (ap (λ r. wrong_code (pf.attempts + 1) ∷ r) os, disk)

  -- However many guesses overlap, each with a wrong code and in time, all of them are tried and together
  -- count as one: each is answered as the next guess after those counted before, and the file holds just
  -- one more. Some guesses are left at the start, and the file can be written.
  pub overlapping_count_once :
      (pf : PairingFile) (g : Guess) (gs : List Guess) (s : Server)
      → IsWritable files
      → s.pairing_path ≡ true
      → pf.attempts < pairing_attempts
      → All (IsWrong pf) (g ∷ gs)
      → let r = overlapping (holds pf) s (g ∷ gs) in
        (r.1 ≡ replicate (length (g ∷ gs)) (wrong_code (pf.attempts + 1)))
        × (r.0.disk ≡ holds (record pf { attempts = pf.attempts + 1 }))
  overlapping_count_once pf g gs s w p a all =
      overlapping-Same pf (g ∷ gs) s w p a all (inr (omega arith))
