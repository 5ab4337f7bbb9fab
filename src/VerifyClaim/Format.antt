-- ===== src/VerifyClaim/Format.antt =====
-- The format of OpenTimestamps proofs, for what ops/verify_claim.py reads of it.
use Prim.Native.Nat.{zero, suc}
use opentimestamps_server.Prelude.{
  ℕ, ◌+◌, ◌/◌, ◌%◌, ◌≤◌, ◌<◌, ◌^◌, ◌≢◌, ◌⊎◌, List, [], ◌∷◌, ◌++◌, Bytes, codes, length, ltb,
  if◌then◌else◌, ◌≡◌,
}
use opentimestamps_server.VerifyClaim.{
  Op, sha256_op, append_op, prepend_op, Kind, pending, bitcoin, unknown, Attestation, Place,
}
use opentimestamps_server.VerifyClaim.Paths.{apply}

-- A timestamp: branches after fork markers, and a last branch.
mutual
  pub data Tree : Type 0 where
    last : Branch → Tree
    fork : Branch → Tree → Tree

  pub data Branch : Type 0 where
    attest : Bytes → Bytes → Kind → Branch
    operate : Op → Bytes → Tree → Branch

-- The bytes at the front of every proof.
abbrev pub header : Bytes
header =
    0 ∷ codes "OpenTimestamps"
    ++ 0 ∷ 0 ∷ codes "Proof"
    ++ 0 ∷ 191 ∷ 137 ∷ 226 ∷ 232 ∷ 132 ∷ 232 ∷ 146 ∷ 148 ∷ []

-- The format, each item before the bytes that follow it. A number below 128 * 128.
abbrev pub varuint : ℕ → Bytes → Bytes
varuint n rest = if ltb n 128 then n ∷ rest else (128 + n % 128) ∷ (n / 128) ∷ rest

-- A number in at most `left` bytes, seven bits in each, the lowest first.
unfoldable pub long_varuint : ℕ → ℕ → Bytes → Bytes
long_varuint zero n rest = rest
long_varuint (suc left) n rest =
    let more = long_varuint left (n / 128) rest in
    if ltb n 128 then n ∷ rest else (128 + n % 128) ∷ more

abbrev pub varbytes : Bytes → Bytes → Bytes
varbytes payload rest = varuint (length payload) (payload ++ rest)

abbrev pub op_bytes : Op → Bytes → Bytes → Bytes
op_bytes sha256_op operand rest = 0x08 ∷ rest
op_bytes append_op operand rest = 0xf0 ∷ varbytes operand rest
op_bytes prepend_op operand rest = 0xf1 ∷ varbytes operand rest

unfoldable mutual
  pub print : Tree → Bytes → Bytes
  print (last b) rest = print_branch b rest
  print (fork b t) rest = 0xff ∷ print_branch b (print t rest)

  pub print_branch : Branch → Bytes → Bytes
  print_branch (attest tag payload kind) rest = 0x00 ∷ tag ++ varbytes payload rest
  print_branch (operate op operand t) rest = op_bytes op operand (print t rest)

abbrev pub place_after : (Bytes → Bytes) → Op → Bytes → Place → Place
place_after sha256 op operand at = record {
  msg = apply sha256 op operand at.msg;
  path =
      at.path
      ++ record { op = op; operand = operand; result = apply sha256 op operand at.msg } ∷ [];
  ops = at.ops + 1;
}

-- The attestations of a timestamp from a place on, in their order.
unfoldable mutual
  pub attestations : (Bytes → Bytes) → Place → Tree → List Attestation
  attestations sha256 at (last b) = of_branch sha256 at b
  attestations sha256 at (fork b t) = of_branch sha256 at b ++ attestations sha256 at t

  pub of_branch : (Bytes → Bytes) → Place → Branch → List Attestation
  of_branch sha256 at (attest tag payload kind) =
      record { kind = kind; msg = at.msg; path = at.path } ∷ []
  of_branch sha256 at (operate op operand t) =
      attestations sha256 (place_after sha256 op operand at) t

abbrev pub IsOperand : Op → Bytes → Type 0
IsOperand sha256_op operand = operand ≡ []
IsOperand append_op operand = (1 ≤ length operand) × (length operand ≤ 4096)
IsOperand prepend_op operand = (1 ≤ length operand) × (length operand ≤ 4096)

-- The tags of the four attestations that are known: a calendar's, and those of three chains.
abbrev pub calendar_tag : Bytes
calendar_tag = 131 ∷ 223 ∷ 227 ∷ 13 ∷ 46 ∷ 249 ∷ 12 ∷ 142 ∷ []

abbrev pub bitcoin_block_tag : Bytes
bitcoin_block_tag = 5 ∷ 136 ∷ 150 ∷ 13 ∷ 115 ∷ 215 ∷ 25 ∷ 1 ∷ []

abbrev pub litecoin_block_tag : Bytes
litecoin_block_tag = 6 ∷ 134 ∷ 154 ∷ 13 ∷ 115 ∷ 215 ∷ 27 ∷ 69 ∷ []

abbrev pub ethereum_block_tag : Bytes
ethereum_block_tag = 48 ∷ 254 ∷ 128 ∷ 135 ∷ 181 ∷ 199 ∷ 234 ∷ 215 ∷ []

-- A byte of a calendar's address: `-`, `.`, `/`, a digit or `:`; a capital; `_`; a small letter.
abbrev pub IsUriByte : ℕ → Type 0
IsUriByte b = ((45 ≤ b) × (b ≤ 58)) ⊎ ((65 ≤ b) × (b ≤ 90)) ⊎ (b ≡ 95) ⊎ ((97 ≤ b) × (b ≤ 122))

abbrev pub IsUri : Bytes → Type 0
IsUri [] = Unit {0}
IsUri (b ∷ uri) = IsUriByte b × IsUri uri

-- The height of a block, below 2 ^ 70, and nothing after it.
abbrev pub IsHeight : ℕ → Bytes → Type 0
IsHeight height payload = (height < 128 ^ 10) × (payload ≡ long_varuint 10 height [])

abbrev pub IsBlockTag : Bytes → Type 0
IsBlockTag tag = (tag ≡ bitcoin_block_tag) ⊎ (tag ≡ litecoin_block_tag) ⊎ (tag ≡ ethereum_block_tag)

abbrev pub IsOther : Bytes → Type 0
IsOther tag =
    (tag ≢ calendar_tag)
    × (tag ≢ bitcoin_block_tag)
    × (tag ≢ litecoin_block_tag)
    × (tag ≢ ethereum_block_tag)

-- What an attestation's tag and payload say: a calendar's address with its length before it, a
-- block's height, or anything under a tag that is not known.
abbrev pub IsKind : Bytes → Bytes → Kind → Type 0
IsKind tag payload (pending uri) =
    (tag ≡ calendar_tag) × (length uri ≤ 1000) × IsUri uri × (payload ≡ varbytes uri [])
IsKind tag payload (bitcoin height) = (tag ≡ bitcoin_block_tag) × IsHeight height payload
IsKind tag payload (unknown t) =
    (t ≡ tag)
    × (IsOther tag
        ⊎ (((tag ≡ litecoin_block_tag) ⊎ (tag ≡ ethereum_block_tag))
            × (height : ℕ) × IsHeight height payload))

-- The limits of the format: those on an attestation's tag and payload, and those on an operation.
pub record IsPayload (tag payload : Bytes) (kind : Kind) : Type 0 where
  pub size : length tag ≡ 8
  pub short : length payload ≤ 8192
  pub told : IsKind tag payload kind

pub record IsStep (sha256 : Bytes → Bytes) (at : Place) (op : Op) (operand : Bytes) : Type 0 where
  pub fits : length at.msg ≤ 4096
  pub operand_fits : IsOperand op operand
  pub result_fits : length (apply sha256 op operand at.msg) ≤ 4096
  pub few : at.ops + 1 ≤ 255

unfoldable mutual
  pub IsWithin : (Bytes → Bytes) → Place → Tree → Type 0
  IsWithin sha256 at (last b) = IsBranch sha256 at b
  IsWithin sha256 at (fork b t) = IsBranch sha256 at b × IsWithin sha256 at t

  pub IsBranch : (Bytes → Bytes) → Place → Branch → Type 0
  IsBranch sha256 at (attest tag payload kind) = IsPayload tag payload kind
  IsBranch sha256 at (operate op operand t) =
      IsStep sha256 at op operand × IsWithin sha256 (place_after sha256 op operand at) t
