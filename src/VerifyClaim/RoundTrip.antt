-- ===== src/VerifyClaim/RoundTrip.antt =====
-- ops/verify_claim.py: `parse_proof` on the proofs of the format.
use Prim.Native.Nat.{zero, suc}
use opentimestamps_server.Prelude.{
  ◌^◌, ℕ, ◌≤◌, ◌<◌, Bool, true, false, List, [], ◌∷◌, ◌++◌, append_assoc, Bytes, starts_with, take,
  drop, length, length-append, ◌≡◌, refl, ap, subst, ◌∙◌, arith,
}
use opentimestamps_server.VerifyClaim.{
  bitcoin, proof_error, refused, Op, sha256_op, append_op, prepend_op, Kind, Attestation,
  varuint_from, Place, Turn, forks, fails, ends, goes, turn, Walk, walked, refused, walk, parsed,
  whole, parse_proof,
}
use opentimestamps_server.VerifyClaim.Format.{
  long_varuint, IsBlockTag, header, Tree, last, fork, Branch, attest, operate, varbytes, print,
  print_branch, place_after, attestations, of_branch, IsPayload, IsWithin, IsBranch,
}
use opentimestamps_server.VerifyClaim.Varuints.{take_first, drop_first}
use opentimestamps_server.VerifyClaim.Turns.{
  trailing-turn, attest-turn, op_tag, op_rest, op_bytes-split, length-varbytes, operate-turn,
  fork-turn,
}

-- How the loop goes on after the end of a branch.
abbrev resume : (Bytes → Bytes) → ℕ → List Place → List Attestation → Bytes → Walk
resume sha256 n [] out rest = walked out rest
resume sha256 n (at ∷ forked) out rest = walk n sha256 at false forked out rest

-- The round of the loop after what a tag does.
abbrev after_turn :
    (Bytes → Bytes) → ℕ → Place → List Place → List Attestation → Bytes → Turn → Walk
after_turn sha256 n at forked out bytes forks = walk n sha256 at true (at ∷ forked) out bytes
after_turn sha256 n at forked out bytes fails = refused
after_turn sha256 n at forked out bytes (ends a rest) = resume sha256 n forked (out ++ a ∷ []) rest
after_turn sha256 n at forked out bytes (goes place rest) =
    walk n sha256 place false forked out rest

walk-after_turn :
    (n : ℕ) (sha256 : Bytes → Bytes) (at : Place) (after_fork : Bool) (forked : List Place)
    (out : List Attestation) (tag : ℕ) (bytes : Bytes)
    → walk (suc n) sha256 at after_fork forked out (tag ∷ bytes)
      ≡ after_turn sha256 n at forked out bytes (turn sha256 at after_fork tag bytes)
unfolding walk
walk-after_turn n sha256 at after_fork forked out tag bytes =
    by_turn (turn sha256 at after_fork tag bytes) forked
  where
    by_turn :
        (t : Turn) (fs : List Place)
        → (elim t [
          | forks ↦ walk n sha256 at true (at ∷ fs) out bytes
          | fails ↦ refused
          | ends a rest ↦ elim fs [
            | [] ↦ walked (out ++ a ∷ []) rest
            | place ∷ places ↦ walk n sha256 place false places (out ++ a ∷ []) rest
          ]
          | goes place rest ↦ walk n sha256 place false fs out rest
        ])
          ≡ after_turn sha256 n at fs out bytes t
    by_turn forks fs = refl
    by_turn fails fs = refl
    by_turn (ends a rest) [] = refl
    by_turn (ends a rest) (p ∷ fs) = refl
    by_turn (goes place rest) fs = refl

-- A walk comes, with fuel for the bytes that are left, to what follows a branch.
abbrev Reaches : (Bytes → Bytes) → Walk → List Place → List Attestation → Bytes → Type 0
Reaches sha256 w forked out rest =
    (n : ℕ) × (length rest < n) × (w ≡ resume sha256 n forked out rest)

length-op_rest : (op : Op) (operand rest : Bytes) → length rest ≤ length (op_rest op operand rest)
length-op_rest sha256_op operand rest = omega arith
length-op_rest append_op operand rest = length-varbytes operand rest
length-op_rest prepend_op operand rest = length-varbytes operand rest

attest-Reaches :
    (sha256 : Bytes → Bytes) (fuel : ℕ) (at : Place) (after_fork : Bool) (forked : List Place)
    (out : List Attestation) (tag payload rest : Bytes) (kind : Kind)
    → IsPayload tag payload kind
    → length (print_branch (attest tag payload kind) rest) < fuel
    → Reaches sha256
        (walk fuel sha256 at after_fork forked out (print_branch (attest tag payload kind) rest))
        forked
        (out ++ of_branch sha256 at (attest tag payload kind))
        rest
unfolding print attestations walk
attest-Reaches sha256 zero at after_fork forked out tag payload rest kind h lt =
    absurd (omega arith)
attest-Reaches sha256 (suc n) at after_fork forked out tag payload rest kind h lt = (
  n,
  omega (arith, lt, length-append tag (varbytes payload rest), length-varbytes payload rest),
  walk-after_turn n sha256 at after_fork forked out 0x00 (tag ++ varbytes payload rest)
      ∙ ap (after_turn sha256 n at forked out (tag ++ varbytes payload rest))
          (attest-turn sha256 at after_fork tag payload rest kind h),
)

length_after :
    (n : ℕ) (tag : ℕ) (bytes rest : Bytes)
    → length rest ≤ length bytes
    → length (tag ∷ bytes) < suc n
    → length rest < n
length_after n tag bytes rest le lt = omega (arith, le, lt)

mutual
  unfolding print attestations IsWithin

  walk-print :
      (t : Tree) (sha256 : Bytes → Bytes) (fuel : ℕ) (at : Place) (forked : List Place)
      (out : List Attestation) (rest : Bytes)
      → IsWithin sha256 at t
      → length (print t rest) < fuel
      → Reaches sha256
          (walk fuel sha256 at false forked out (print t rest))
          forked
          (out ++ attestations sha256 at t)
          rest
  walk-print (last b) sha256 fuel at forked out rest h lt =
      walk-print_branch b sha256 fuel at false forked out rest h lt
  walk-print (fork b t) sha256 zero at forked out rest h lt = absurd (omega arith)
  walk-print (fork b t) sha256 (suc n) at forked out rest (h, hs) lt =
      let (k, enough, first) =
        walk-print_branch b sha256 n at true (at ∷ forked) out (print t rest) h
          (omega (arith, lt)) in
      let (j, left, second) =
        walk-print t sha256 k at forked (out ++ of_branch sha256 at b) rest hs enough in
      (
        j,
        left,
        walk-after_turn n sha256 at false forked out 0xff (print_branch b (print t rest))
            ∙ (opened
                ∙ (first
                    ∙ (second
                        ∙ ap (λ o. resume sha256 j forked o rest)
                            (append_assoc out (of_branch sha256 at b)
                              (attestations sha256 at t))))),
      )
    where
      opened :
          after_turn sha256 n at forked out
            (print_branch b (print t rest))
            (turn sha256 at false 0xff (print_branch b (print t rest)))
          ≡ walk n sha256 at true (at ∷ forked) out (print_branch b (print t rest))
      opened =
          ap (after_turn sha256 n at forked out (print_branch b (print t rest)))
            (fork-turn sha256 at (print_branch b (print t rest)))

  walk-print_branch :
      (b : Branch) (sha256 : Bytes → Bytes) (fuel : ℕ) (at : Place) (after_fork : Bool)
      (forked : List Place) (out : List Attestation) (rest : Bytes)
      → IsBranch sha256 at b
      → length (print_branch b rest) < fuel
      → Reaches sha256
          (walk fuel sha256 at after_fork forked out (print_branch b rest))
          forked
          (out ++ of_branch sha256 at b)
          rest
  walk-print_branch (attest tag payload kind) sha256 fuel at after_fork forked out rest h lt =
      attest-Reaches sha256 fuel at after_fork forked out tag payload rest kind h lt
  walk-print_branch (operate op operand t) sha256 zero at after_fork forked out rest h lt =
      absurd (omega arith)
  walk-print_branch (operate op operand t) sha256 (suc n) at after_fork forked out rest (h, hs) lt =
      let split = op_bytes-split op operand (print t rest) in
      let (j, left, more) =
        walk-print t sha256 n (place_after sha256 op operand at) forked out rest hs (
          length_after n (op_tag op) (op_rest op operand (print t rest)) (print t rest)
            (length-op_rest op operand (print t rest)) (subst (λ z. length z < suc n) split lt)) in
      (
        j,
        left,
        ap (walk (suc n) sha256 at after_fork forked out) split
            ∙ (walk-after_turn n sha256 at after_fork forked out (op_tag op)
                  (op_rest op operand (print t rest))
                ∙ (ap (after_turn sha256 n at forked out (op_rest op operand (print t rest)))
                      (operate-turn sha256 at after_fork op operand (print t rest) h)
                    ∙ more)),
      )

abbrev pub start : Bytes → Place
start digest = record { msg = digest; path = []; ops = 0 }

-- A whole proof.
abbrev pub print_proof : Bytes → Tree → Bytes
print_proof digest t = header ++ 1 ∷ 0x08 ∷ digest ++ print t []

parse_proof_accepts :
    (sha256 : Bytes → Bytes) (digest : Bytes) (t : Tree)
    → length digest ≡ 32
    → IsWithin sha256 (start digest) t
    → parse_proof sha256 (print_proof digest t)
      ≡ parsed digest (attestations sha256 (start digest) t)
unfolding parse_proof starts_with varuint_from
parse_proof_accepts sha256 digest t size h = rw digest_told (
    rw rest_told (
      rw size (
        ended (
          walk-print t sha256 (suc (length (print t []))) (start digest) [] [] [] h
            (omega arith)))))
  where
    digest_told : take 32 (digest ++ print t []) ≡ digest
    digest_told =
        subst (λ k. take k (digest ++ print t []) ≡ digest) size (take_first digest (print t []))

    rest_told : drop 32 (digest ++ print t []) ≡ print t []
    rest_told =
        subst (λ k. drop k (digest ++ print t []) ≡ print t []) size
          (drop_first digest (print t []))

    ended :
        Reaches sha256
          (walk (suc (length (print t []))) sha256 (start digest) false [] [] (print t []))
          []
          (attestations sha256 (start digest) t)
          []
        → whole digest
            (walk (suc (length (print t []))) sha256 (start digest) false [] [] (print t []))
          ≡ parsed digest (attestations sha256 (start digest) t)
    ended (n, left, e) = ap (whole digest) e

-- A proof of one attestation, whose block height has a byte behind it.
abbrev pub trailing_proof : Bytes → Bytes → ℕ → ℕ → Bytes → Bytes
trailing_proof digest tag height b more =
    print_proof digest (last (attest tag (long_varuint 10 height (b ∷ more)) (bitcoin height)))

parse_proof_refuses :
    (sha256 : Bytes → Bytes) (digest tag more : Bytes) (height b : ℕ)
    → length digest ≡ 32
    → IsBlockTag tag
    → height < 128 ^ 10
    → length (long_varuint 10 height (b ∷ more)) ≤ 8192
    → parse_proof sha256 (trailing_proof digest tag height b more) ≡ proof_error
unfolding parse_proof starts_with varuint_from print walk
parse_proof_refuses sha256 digest tag more height b size tagged lt short =
    rw digest_told (rw rest_told (rw size (ap (whole digest) (stops (length (print t []))))))
  where
    t : Tree
    t = last (attest tag (long_varuint 10 height (b ∷ more)) (bitcoin height))

    stops : (n : ℕ) → walk (suc n) sha256 (start digest) false [] [] (print t []) ≡ refused
    stops n =
        walk-after_turn n sha256 (start digest) false [] [] 0x00
          (tag ++ varbytes (long_varuint 10 height (b ∷ more)) [])
        ∙ ap
            (after_turn sha256 n (start digest) [] []
              (tag ++ varbytes (long_varuint 10 height (b ∷ more)) []))
            (trailing-turn sha256 (start digest) false tag more [] height b tagged lt short)

    digest_told : take 32 (digest ++ print t []) ≡ digest
    digest_told =
        subst (λ k. take k (digest ++ print t []) ≡ digest) size (take_first digest (print t []))

    rest_told : drop 32 (digest ++ print t []) ≡ print t []
    rest_told =
        subst (λ k. drop k (digest ++ print t []) ≡ print t []) size
          (drop_first digest (print t []))

-- Every proof of the format is accepted: a digest of 32 bytes and a timestamp of any number of forks
-- and operations is read back to exactly its attestations, in their order, each with its message and
-- the path that leads to it. The format's limits are a tag of eight bytes and a payload of at most
-- 8192: under the calendar's tag an address of at most 1000 bytes, of letters, digits and `-._/:`,
-- with its length before it; under Bitcoin's, Litecoin's and Ethereum's a height below 2 ^ 70; under
-- another tag, anything. An operation has an operand of 1 to 4096 bytes, a message and a result
-- of at most 4096, and it is at most the 255th of its path. And a proof of one attestation in which
-- a byte follows the height, the payload being within its limit, is refused.
pub parse_proof-print :
    (sha256 : Bytes → Bytes) (digest : Bytes) (t : Tree) (tag more : Bytes) (height b : ℕ)
    → length digest ≡ 32
    → IsWithin sha256 (start digest) t
    → IsBlockTag tag
    → height < 128 ^ 10
    → length (long_varuint 10 height (b ∷ more)) ≤ 8192
    → (parse_proof sha256 (print_proof digest t)
        ≡ parsed digest (attestations sha256 (start digest) t))
      × (parse_proof sha256 (trailing_proof digest tag height b more) ≡ proof_error)
parse_proof-print sha256 digest t tag more height b size h tagged lt short = (
  parse_proof_accepts sha256 digest t size h,
  parse_proof_refuses sha256 digest tag more height b size tagged lt short,
)
