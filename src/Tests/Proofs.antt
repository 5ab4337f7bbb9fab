-- ===== src/Tests/Proofs.antt =====
-- A proof of two branches: one calendar's pending attestation, and a height in Bitcoin's chain.
use opentimestamps_server.Prelude.{
  inl, List, [], ◌∷◌, ◌++◌, Bytes, codes, replicate, length, starts_with, bytes_eq, ◌≡◌, refl, ◌≤◌,
  arith, inr,
}
use opentimestamps_server.Prelude.Distinct.{has}
use opentimestamps_server.Checkpoint.{all_chars}
use opentimestamps_server.VerifyClaim.{
  Attestation, Kind, sha256_op, append_op, pending, bitcoin, Parse, parsed, proof_error, unfinished,
  magic, pending_tag, bitcoin_tag, parse_proof, walk, turn, kind_of, read_varbytes, varuint_from,
}
use opentimestamps_server.VerifyClaim.Format.{
  print, Tree, last, fork, attest, operate, attestations, IsWithin, IsUriByte, long_varuint,
}
use opentimestamps_server.VerifyClaim.RoundTrip.{
  trailing_proof, start, print_proof, parse_proof-print,
}
use opentimestamps_server.VerifyClaim.Ends.{IsParsed, parse_proof-IsParsed}

-- A stand-in for SHA-256 with results of 32 bytes.
abbrev pub sum_hash : Bytes → Bytes
sum_hash msg = replicate 32 (length msg)

-- An operand of one byte, a fork, and a hash before the second attestation.
abbrev pub two_branches : Bytes
two_branches =
    magic
    ++ 1 ∷ 8 ∷ replicate 32 5
    ++ 0xf0 ∷ 1 ∷ 7 ∷ 0xff ∷ 0 ∷ pending_tag
    ++ 3 ∷ 2 ∷ codes "ab"
    ++ 8 ∷ 0 ∷ bitcoin_tag
    ++ 2 ∷ 0xac ∷ 2 ∷ []

abbrev kinds_in : List Attestation → List Kind
kinds_in [] = []
kinds_in (a ∷ out) = a.kind ∷ kinds_in out

abbrev kinds : Parse → List Kind
kinds (parsed digest out) = kinds_in out
kinds proof_error = []
kinds unfinished = []

two_kinds : kinds (parse_proof sum_hash two_branches) ≡ pending (codes "ab") ∷ bitcoin 300 ∷ []
unfolding parse_proof walk turn kind_of read_varbytes varuint_from starts_with bytes_eq has
    all_chars
two_kinds = refl

parse_proof-IsParsed_example : IsParsed sum_hash two_branches (parse_proof sum_hash two_branches)
parse_proof-IsParsed_example = parse_proof-IsParsed sum_hash two_branches

-- The same proof as a tree.
abbrev tree : Tree
tree = last (
    operate append_op (7 ∷ []) (
      fork (attest pending_tag (2 ∷ codes "ab") (pending (codes "ab")))
        (last (operate sha256_op [] (last (attest bitcoin_tag (0xac ∷ 2 ∷ []) (bitcoin 300)))))))

abbrev digest : Bytes
digest = replicate 32 5

printed_tree : print_proof digest tree ≡ two_branches
unfolding print
printed_tree = refl

uri_a : IsUriByte 97
uri_a = inr (inr (inr (omega arith, omega arith)))

uri_b : IsUriByte 98
uri_b = inr (inr (inr (omega arith, omega arith)))

tree-IsWithin : IsWithin sum_hash (start digest) tree
unfolding IsWithin long_varuint
tree-IsWithin = (
  record {
    fits = omega arith;
    operand_fits = (omega arith, omega arith);
    result_fits = omega arith;
    few = omega arith;
  },
  (
    record {
      size = refl;
      short = omega arith;
      told = (refl, omega arith, (uri_a, (uri_b, tt)), refl);
    },
    (
      record {
        fits = omega arith;
        operand_fits = refl;
        result_fits = omega arith;
        few = omega arith;
      },
      record { size = refl; short = omega arith; told = (refl, (omega arith, refl)) },
    ),
  ),
)

short_trailing : length (long_varuint 10 300 (0 ∷ [])) ≤ 8192
unfolding long_varuint
short_trailing = omega arith

parse_proof-print_example :
    (parse_proof sum_hash (print_proof digest tree)
      ≡ parsed digest (attestations sum_hash (start digest) tree))
    × (parse_proof sum_hash (trailing_proof digest bitcoin_tag 300 0 []) ≡ proof_error)
parse_proof-print_example =
    parse_proof-print sum_hash digest tree bitcoin_tag [] 300 0 refl tree-IsWithin (inl refl)
      (omega arith) short_trailing
