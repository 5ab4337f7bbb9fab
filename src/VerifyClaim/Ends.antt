-- ===== src/VerifyClaim/Ends.antt =====
-- ops/verify_claim.py: the loop of `parse_proof`, to its end.
use Prim.Native.Nat.{zero, suc}
use opentimestamps_server.Prelude.{
  ℕ, ◌≢◌, ◌≤◌, ◌<◌, Bool, true, false, Option, none, some, List, [], ◌∷◌, ◌++◌, Bytes, starts_with,
  take, drop, length, ◌==◌, ==_iff, ◌≡◌, refl, arith, All, Bool-cases, inl, inr,
}
use opentimestamps_server.VerifyClaim.{
  magic, Attestation, read_varuint, Place, Turn, forks, fails, ends, goes, turn, Walk, walked,
  refused, starved, walk, Parse, parsed, proof_error, unfinished, whole, parse_branches,
  parse_digest, parse_version, parse_proof,
}
use opentimestamps_server.VerifyClaim.Paths.{IsTied, IsPlace, IsTurn, turn-IsTurn, IsPath}

module _ (sha256 : Bytes → Bytes) (digest : Bytes) where
  abbrev IsWalked : Walk → Type 0
  IsWalked (walked out rest) = All (IsTied sha256 digest) out × (out ≢ [])
  IsWalked refused = Unit {0}
  IsWalked starved = ⊥

  IsTied-more :
      (out : List Attestation) (a : Attestation)
      → All (IsTied sha256 digest) out
      → (IsTied sha256 digest) a
      → All (IsTied sha256 digest) (out ++ a ∷ [])
  IsTied-more [] a h t = (t, tt)
  IsTied-more (b ∷ out) a (first, h) t = (first, IsTied-more out a h t)

  never_empty : (out : List Attestation) (a : Attestation) → (out ++ a ∷ []) ≢ []
  never_empty [] a e = cc
  never_empty (b ∷ out) a e = cc

  walk-IsWalked :
      (fuel : ℕ) (at : Place) (after_fork : Bool) (forked : List Place) (out : List Attestation)
      (bytes : Bytes)
      → (IsPlace sha256 digest) at
      → All (IsPlace sha256 digest) forked
      → All (IsTied sha256 digest) out
      → length bytes < fuel
      → IsWalked (walk fuel sha256 at after_fork forked out bytes)
  unfolding walk
  walk-IsWalked zero at after_fork forked out bytes h hs told lt = absurd (omega arith)
  walk-IsWalked (suc n) at after_fork forked out [] h hs told lt = tt
  walk-IsWalked (suc n) at after_fork forked out (tag ∷ bytes) h hs told lt =
      next (turn sha256 at after_fork tag bytes)
        (turn-IsTurn sha256 digest at h after_fork tag bytes)
        (λ place places o rest p ps t le.
          walk-IsWalked n place false places o rest p ps t (omega (arith, le)))
        (walk-IsWalked n at true (at ∷ forked) out bytes h (h, hs) told (omega arith))
    where
      next :
          (t : Turn)
          → (IsTurn sha256 digest) (length bytes) t
          → ((place : Place) (places : List Place) (o : List Attestation) (rest : Bytes)
              → (IsPlace sha256 digest) place
              → All (IsPlace sha256 digest) places
              → All (IsTied sha256 digest) o
              → length rest ≤ length bytes
              → IsWalked (walk n sha256 place false places o rest))
          → IsWalked (walk n sha256 at true (at ∷ forked) out bytes)
          → IsWalked (elim t [
            | forks ↦ walk n sha256 at true (at ∷ forked) out bytes
            | fails ↦ refused
            | ends a rest ↦ elim forked [
              | [] ↦ walked (out ++ a ∷ []) rest
              | place ∷ places ↦ walk n sha256 place false places (out ++ a ∷ []) rest
            ]
            | goes place rest ↦ walk n sha256 place false forked out rest
          ])
      next forks turned more opened = opened
      next fails turned more opened = tt
      next (goes place rest) (placed, le) more opened = more place forked out rest placed hs told le
      next (ends a rest) (tied, le) more opened = resumed forked hs
        where
          resumed :
              (fs : List Place)
              → All (IsPlace sha256 digest) fs
              → IsWalked (elim fs [
                | [] ↦ walked (out ++ a ∷ []) rest
                | place ∷ places ↦ walk n sha256 place false places (out ++ a ∷ []) rest
              ])
          resumed [] ps = (IsTied-more out a told tied, never_empty out a)
          resumed (p ∷ fs) (placed, ps) =
              more p fs (out ++ a ∷ []) rest placed ps (IsTied-more out a told tied) le

abbrev pub IsParsed : (Bytes → Bytes) → Bytes → Parse → Type 0
IsParsed sha256 bytes (parsed digest out) =
    (starts_with bytes magic ≡ true)
    × (length digest ≡ 32)
    × (out ≢ [])
    × All (IsTied sha256 digest) out
IsParsed sha256 bytes proof_error = Unit {0}
IsParsed sha256 bytes unfinished = ⊥

-- On every input the parser ends, with a refusal or with a proof. A proof has its magic bytes, a
-- digest of 32 bytes and at least one attestation, and the path of each attestation leads from the
-- digest to the attestation's message: at most 255 operations, each with the result that it has on
-- the message before it, none longer than 4096 bytes.
pub parse_proof-IsParsed :
    (sha256 : Bytes → Bytes) (bytes : Bytes) → IsParsed sha256 bytes (parse_proof sha256 bytes)
unfolding parse_proof IsPath
parse_proof-IsParsed sha256 bytes = elim (Bool-cases (starts_with bytes magic)) [
  | inl proof ↦ rw proof (versioned proof (read_varuint (drop (length magic) bytes)))
  | inr other ↦ rw other tt
]
  where
    ended :
        (digest : Bytes) (w : Walk)
        → starts_with bytes magic ≡ true
        → length digest ≡ 32
        → IsWalked sha256 digest w
        → IsParsed sha256 bytes (whole digest w)
    ended digest (walked out []) proof size (told, some_out) = (proof, size, some_out, told)
    ended digest (walked out (b ∷ rest)) proof size h = tt
    ended digest refused proof size h = tt
    ended digest starved proof size h = absurd h

    branches :
        starts_with bytes magic ≡ true
        → (digest rest : Bytes) → IsParsed sha256 bytes (parse_branches sha256 digest rest)
    branches proof digest rest = elim (Bool-cases (length digest == 32)) [
      | inl size ↦ rw size (
          ended digest
            (walk (suc (length rest)) sha256 (record { msg = digest; path = []; ops = 0 }) false []
              [] rest)
            proof ((==_iff (length digest) 32).0 size)
            (walk-IsWalked sha256 digest (suc (length rest))
              (record { msg = digest; path = []; ops = 0 }) false [] [] rest
              (record { path = refl; counted = refl; short = omega arith }) tt tt (omega arith)))
      | inr cut ↦ rw cut tt
    ]

    hashed :
        starts_with bytes magic ≡ true
        → (rest : Bytes) → IsParsed sha256 bytes (parse_digest sha256 rest)
    hashed proof [] = tt
    hashed proof (op ∷ rest) = elim (Bool-cases (op == 0x08)) [
      | inl sha ↦ rw sha (branches proof (take 32 rest) (drop 32 rest))
      | inr strange ↦ rw strange tt
    ]

    versioned :
        starts_with bytes magic ≡ true
        → (o : Option (ℕ × Bytes)) → IsParsed sha256 bytes (parse_version sha256 o)
    versioned proof none = tt
    versioned proof (some (version, rest)) = elim (Bool-cases (version == 1)) [
      | inl one ↦ rw one (hashed proof rest)
      | inr other ↦ rw other tt
    ]
