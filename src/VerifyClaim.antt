-- ===== src/VerifyClaim.antt =====
-- ops/verify_claim.py: the parser of OpenTimestamps proofs. SHA-256 is a parameter; a `ProofError`
-- is `none` or a refusal, without its text.
pub mod Paths
pub mod Ends
pub mod Format
pub mod Varuints
pub mod Kinds
pub mod Turns
pub mod RoundTrip
use Prim.Native.Nat.{zero, suc}
use opentimestamps_server.Prelude.{
  ℕ, ◌+◌, ◌*◌, ◌/◌, ◌%◌, ◌^◌, Bool, true, false, not, ◌||◌, Option, none, some, List, [], ◌∷◌, ◌++◌,
  Bytes, bytes_eq, codes, starts_with, take, drop, length, ltb, ◌==◌, if◌then◌else◌,
}
use opentimestamps_server.Prelude.Distinct.{has}
use opentimestamps_server.Checkpoint.{all_chars}

abbrev pub magic : Bytes
magic =
    0 ∷ codes "OpenTimestamps"
    ++ 0 ∷ 0 ∷ codes "Proof"
    ++ 0 ∷ 0xbf ∷ 0x89 ∷ 0xe2 ∷ 0xe8 ∷ 0x84 ∷ 0xe8 ∷ 0x92 ∷ 0x94 ∷ []

abbrev pub pending_tag : Bytes
pending_tag = 0x83 ∷ 0xdf ∷ 0xe3 ∷ 0x0d ∷ 0x2e ∷ 0xf9 ∷ 0x0c ∷ 0x8e ∷ []

abbrev pub bitcoin_tag : Bytes
bitcoin_tag = 0x05 ∷ 0x88 ∷ 0x96 ∷ 0x0d ∷ 0x73 ∷ 0xd7 ∷ 0x19 ∷ 0x01 ∷ []

abbrev pub height_tags : List Bytes
height_tags =
    bitcoin_tag
    ∷ (0x06 ∷ 0x86 ∷ 0x9a ∷ 0x0d ∷ 0x73 ∷ 0xd7 ∷ 0x1b ∷ 0x45 ∷ [])
    ∷ (0x30 ∷ 0xfe ∷ 0x80 ∷ 0x87 ∷ 0xb5 ∷ 0xc7 ∷ 0xea ∷ 0xd7 ∷ [])
    ∷ []

abbrev pub max_operand : ℕ
max_operand = 4096

abbrev pub max_msg : ℕ
max_msg = 4096

abbrev pub max_attestation_payload : ℕ
max_attestation_payload = 8192

abbrev pub max_uri : ℕ
max_uri = 1000

abbrev pub uri_chars : Bytes
uri_chars = codes "abcdefghijklmnopqrstuvwxyzABCDEFGHIJKLMNOPQRSTUVWXYZ0123456789-._/:"

abbrev pub max_ops_on_a_path : ℕ
max_ops_on_a_path = 255

abbrev pub max_varuint_bytes : ℕ
max_varuint_bytes = 10

-- The operations of `OP_NAMES`.
pub data Op : Type 0 where
  sha256_op append_op prepend_op : Op

-- An operation on a path: its name, its operand and its result.
pub record Step : Type 0 where
  pub op : Op
  pub operand : Bytes
  pub result : Bytes

pub data Kind : Type 0 where
  pending : Bytes → Kind
  bitcoin : ℕ → Kind
  unknown : Bytes → Kind

pub record Attestation : Type 0 where
  pub kind : Kind
  pub msg : Bytes
  pub path : List Step

-- `left` is the number of bytes that may still come. The bits below `shift` are those of `value`,
-- so the code's `|=` adds.
unfoldable pub varuint_from : ℕ → ℕ → ℕ → Bytes → Option (ℕ × Bytes)
varuint_from left shift value [] = none
varuint_from zero shift value (b ∷ bytes) = none
varuint_from (suc left) shift value (b ∷ bytes) =
    let more = varuint_from left (shift + 7) (value + b % 128 * 2 ^ shift) bytes in
    if b / 128 % 2 == 0 then some (value + b % 128 * 2 ^ shift, bytes) else more

-- A read takes the rest of the data, and gives the rest after it.
abbrev pub read_varuint : Bytes → Option (ℕ × Bytes)
read_varuint bytes = varuint_from max_varuint_bytes 0 0 bytes

abbrev pub varbytes_of : ℕ → ℕ → Option (ℕ × Bytes) → Option (Bytes × Bytes)
varbytes_of max_len min_len none = none
varbytes_of max_len min_len (some (n, bytes)) =
    if ltb max_len n || (ltb n min_len || ltb (length bytes) n)
    then none
    else some (take n bytes, drop n bytes)

unfoldable pub read_varbytes : ℕ → ℕ → Bytes → Option (Bytes × Bytes)
unfolding varuint_from
read_varbytes max_len min_len bytes = varbytes_of max_len min_len (read_varuint bytes)

-- The payload of a pending attestation, read to its end.
abbrev pub pending_kind : Option (Bytes × Bytes) → Option Kind
pending_kind none = none
pending_kind (some (uri, [])) =
    if all_chars (λ b. has (λ x y. x == y) b uri_chars) uri then some (pending uri) else none
pending_kind (some (uri, b ∷ rest)) = none

abbrev pub height_kind : Bytes → Option (ℕ × Bytes) → Option Kind
height_kind tag none = none
height_kind tag (some (height, [])) =
    if bytes_eq tag bitcoin_tag then some (bitcoin height) else some (unknown tag)
height_kind tag (some (height, b ∷ rest)) = none

unfoldable pub kind_of : Bytes → Bytes → Option Kind
unfolding read_varbytes
kind_of tag payload =
    if bytes_eq tag pending_tag
    then pending_kind (read_varbytes max_uri 0 payload)
    else if has bytes_eq tag height_tags
    then height_kind tag (read_varuint payload)
    else some (unknown tag)

-- A message, the path that leads to it, and the number of its operations: what a fork goes on from.
pub record Place : Type 0 where
  pub msg : Bytes
  pub path : List Step
  pub ops : ℕ

-- What a tag does: it opens a fork, ends a branch with an attestation, or goes on with an operation.
pub data Turn : Type 0 where
  forks fails : Turn
  ends : Attestation → Bytes → Turn
  goes : Place → Bytes → Turn

abbrev pub attested : Place → Bytes → Option Kind → Turn
attested at bytes none = fails
attested at bytes (some kind) = ends (record { kind = kind; msg = at.msg; path = at.path }) bytes

abbrev pub with_payload : Place → Bytes → Option (Bytes × Bytes) → Turn
with_payload at tag none = fails
with_payload at tag (some (payload, bytes)) = attested at bytes (kind_of tag payload)

-- `_read_attestation`
abbrev pub read_attestation : Place → Bytes → Turn
read_attestation at bytes =
    if length (take 8 bytes) == 8
    then with_payload at (take 8 bytes) (read_varbytes max_attestation_payload 0 (drop 8 bytes))
    else fails

abbrev pub moved : Place → Op → Bytes → Bytes → Bytes → Turn
moved at op operand result bytes =
    if ltb max_operand (length result) || ltb max_ops_on_a_path (at.ops + 1)
    then fails
    else goes
        (record {
          msg = result;
          path = at.path ++ record { op = op; operand = operand; result = result } ∷ [];
          ops = at.ops + 1;
        })
        bytes

abbrev pub appended : Place → Option (Bytes × Bytes) → Turn
appended at none = fails
appended at (some (operand, bytes)) = moved at append_op operand (at.msg ++ operand) bytes

abbrev pub prepended : Place → Option (Bytes × Bytes) → Turn
prepended at none = fails
prepended at (some (operand, bytes)) = moved at prepend_op operand (operand ++ at.msg) bytes

abbrev pub operated : (Bytes → Bytes) → Place → ℕ → Bytes → Turn
operated sha256 at tag bytes =
    if ltb max_msg (length at.msg)
    then fails
    else if tag == 0x08
    then moved at sha256_op [] (sha256 at.msg) bytes
    else if tag == 0xf0
    then appended at (read_varbytes max_operand 1 bytes)
    else if tag == 0xf1
    then prepended at (read_varbytes max_operand 1 bytes)
    else fails

unfoldable pub turn : (Bytes → Bytes) → Place → Bool → ℕ → Bytes → Turn
unfolding kind_of read_varbytes
turn sha256 at after_fork tag bytes =
    if tag == 0xff
    then (if after_fork then fails else forks)
    else if tag == 0x00
    then read_attestation at bytes
    else operated sha256 at tag bytes

-- How the loop ends; `starved` is a loop that goes on after its fuel.
pub data Walk : Type 0 where
  walked : List Attestation → Bytes → Walk
  refused starved : Walk

-- The loop of `parse_proof`, with fuel for its rounds; the last fork is the first of the list.
unfoldable pub walk :
    ℕ → (Bytes → Bytes) → Place → Bool → List Place → List Attestation → Bytes → Walk
unfolding turn
walk zero sha256 at after_fork forked out bytes = starved
walk (suc n) sha256 at after_fork forked out [] = refused
walk (suc n) sha256 at after_fork forked out (tag ∷ bytes) =
    elim (turn sha256 at after_fork tag bytes) [
      | forks ↦ walk n sha256 at true (at ∷ forked) out bytes
      | fails ↦ refused
      | ends a rest ↦ elim forked [
        | [] ↦ walked (out ++ a ∷ []) rest
        | place ∷ places ↦ walk n sha256 place false places (out ++ a ∷ []) rest
      ]
      | goes place rest ↦ walk n sha256 place false forked out rest
    ]

-- `Parsed`, a `ProofError`, or a parse that is cut off.
pub data Parse : Type 0 where
  parsed : Bytes → List Attestation → Parse
  proof_error unfinished : Parse

abbrev pub whole : Bytes → Walk → Parse
whole digest (walked out []) = parsed digest out
whole digest (walked out (b ∷ bytes)) = proof_error
whole digest refused = proof_error
whole digest starved = unfinished

abbrev pub parse_branches : (Bytes → Bytes) → Bytes → Bytes → Parse
parse_branches sha256 digest bytes =
    if length digest == 32
    then whole digest (
        walk (suc (length bytes)) sha256 (record { msg = digest; path = []; ops = 0 }) false [] []
          bytes)
    else proof_error

abbrev pub parse_digest : (Bytes → Bytes) → Bytes → Parse
parse_digest sha256 [] = proof_error
parse_digest sha256 (op ∷ bytes) =
    if op == 0x08 then parse_branches sha256 (take 32 bytes) (drop 32 bytes) else proof_error

abbrev pub parse_version : (Bytes → Bytes) → Option (ℕ × Bytes) → Parse
parse_version sha256 none = proof_error
parse_version sha256 (some (version, bytes)) =
    if version == 1 then parse_digest sha256 bytes else proof_error

unfoldable pub parse_proof : (Bytes → Bytes) → Bytes → Parse
unfolding walk varuint_from
parse_proof sha256 bytes =
    if starts_with bytes magic
    then parse_version sha256 (read_varuint (drop (length magic) bytes))
    else proof_error
