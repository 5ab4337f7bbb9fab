-- ===== src/VerifyClaim/Turns.antt =====
-- ops/verify_claim.py: a turn of the loop of `parse_proof` on an item of the format.
use opentimestamps_server.Prelude.{
  ◌+◌, ◌≤◌, Bool, false, ◌||◌, ◌∷◌, ◌++◌, Bytes, take, drop, length, length-append, ltb, ◌≡◌, refl,
  ap, ◌∙◌, ℕ, ◌^◌, ◌<◌, subst, arith, Bool-cases, inl, inr,
}
use opentimestamps_server.VerifyClaim.{
  attested, kind_of, fails, max_operand, max_msg, max_ops_on_a_path, Op, sha256_op, append_op,
  prepend_op, Kind, Place, forks, ends, goes, moved, turn,
}
use opentimestamps_server.VerifyClaim.Paths.{apply}
use opentimestamps_server.VerifyClaim.Varuints.{take_first, drop_first, read_varbytes-varbytes}
use opentimestamps_server.VerifyClaim.Kinds.{kind_of-IsKind, kind_of_trailing}
use opentimestamps_server.VerifyClaim.Format.{
  varbytes, long_varuint, IsBlockTag, op_bytes, place_after, IsPayload, IsStep,
}

attested-turn :
    (sha256 : Bytes → Bytes) (at : Place) (after_fork : Bool) (tag payload rest : Bytes)
    → length tag ≡ 8
    → length payload ≤ 8192
    → turn sha256 at after_fork 0x00 (tag ++ varbytes payload rest)
      ≡ attested at rest (kind_of tag payload)
unfolding turn
attested-turn sha256 at after_fork tag payload rest size short =
    let tag_told =
      subst (λ k. take k (tag ++ varbytes payload rest) ≡ tag) size
        (take_first tag (varbytes payload rest)) in
    let rest_told =
      subst (λ k. drop k (tag ++ varbytes payload rest) ≡ varbytes payload rest) size
        (drop_first tag (varbytes payload rest)) in
    rw tag_told (
      rw rest_told (
        rw size (
          rw (read_varbytes-varbytes 8192 0 payload rest short (omega arith) (omega (arith, short)))
            refl)))

pub attest-turn :
    (sha256 : Bytes → Bytes) (at : Place) (after_fork : Bool) (tag payload rest : Bytes)
    (kind : Kind)
    → IsPayload tag payload kind
    → turn sha256 at after_fork 0x00 (tag ++ varbytes payload rest)
      ≡ ends (record { kind = kind; msg = at.msg; path = at.path }) rest
attest-turn sha256 at after_fork tag payload rest kind h =
    attested-turn sha256 at after_fork tag payload rest h.size h.short
    ∙ ap (attested at rest) (kind_of-IsKind tag payload kind h.told)

length-IsBlockTag : (tag : Bytes) → IsBlockTag tag → length tag ≡ 8
length-IsBlockTag tag (inl e) = ap length e
length-IsBlockTag tag (inr (inl e)) = ap length e
length-IsBlockTag tag (inr (inr e)) = ap length e

pub trailing-turn :
    (sha256 : Bytes → Bytes) (at : Place) (after_fork : Bool) (tag more rest : Bytes) (height b : ℕ)
    → IsBlockTag tag
    → height < 128 ^ 10
    → length (long_varuint 10 height (b ∷ more)) ≤ 8192
    → turn sha256 at after_fork 0x00 (tag ++ varbytes (long_varuint 10 height (b ∷ more)) rest)
      ≡ fails
trailing-turn sha256 at after_fork tag more rest height b tagged lt short =
    attested-turn sha256 at after_fork tag (long_varuint 10 height (b ∷ more)) rest
      (length-IsBlockTag tag tagged) short
    ∙ ap (attested at rest) (kind_of_trailing tag height b more tagged lt)

moved-goes :
    (sha256 : Bytes → Bytes) (at : Place) (op : Op) (operand rest : Bytes)
    → IsStep sha256 at op operand
    → moved at op operand (apply sha256 op operand at.msg) rest
      ≡ goes (place_after sha256 op operand at) rest
moved-goes sha256 at op operand rest h = rw allowed refl
  where
    allowed :
        (ltb max_operand (length (apply sha256 op operand at.msg))
          || ltb max_ops_on_a_path (at.ops + 1))
        ≡ false
    allowed = ground (arith, h.result_fits, h.few)

-- The tag of an operation, and the bytes after the tag.
abbrev pub op_tag : Op → ℕ
op_tag sha256_op = 0x08
op_tag append_op = 0xf0
op_tag prepend_op = 0xf1

abbrev pub op_rest : Op → Bytes → Bytes → Bytes
op_rest sha256_op operand rest = rest
op_rest append_op operand rest = varbytes operand rest
op_rest prepend_op operand rest = varbytes operand rest

pub op_bytes-split :
    (op : Op) (operand rest : Bytes)
    → op_bytes op operand rest ≡ op_tag op ∷ op_rest op operand rest
op_bytes-split sha256_op operand rest = refl
op_bytes-split append_op operand rest = refl
op_bytes-split prepend_op operand rest = refl

message_fits :
    (sha256 : Bytes → Bytes) (at : Place) (op : Op) (operand : Bytes)
    → IsStep sha256 at op operand
    → ltb max_msg (length at.msg) ≡ false
message_fits sha256 at op operand h = ground (arith, h.fits)

pub length-varbytes : (payload rest : Bytes) → length rest ≤ length (varbytes payload rest)
length-varbytes payload rest = elim (Bool-cases (ltb (length payload) 128)) [
  | inl small ↦ rw small (omega (arith, length-append payload rest))
  | inr large ↦ rw large (omega (arith, length-append payload rest))
]

pub operate-turn :
    (sha256 : Bytes → Bytes) (at : Place) (after_fork : Bool) (op : Op) (operand rest : Bytes)
    → IsStep sha256 at op operand
    → turn sha256 at after_fork (op_tag op) (op_rest op operand rest)
      ≡ goes (place_after sha256 op operand at) rest
unfolding turn
operate-turn sha256 at after_fork sha256_op operand rest h =
    rw (message_fits sha256 at sha256_op operand h) (
      subst
        (λ z.
          moved at sha256_op z (sha256 at.msg) rest
          ≡ goes (place_after sha256 sha256_op operand at) rest)
        h.operand_fits (moved-goes sha256 at sha256_op operand rest h))
operate-turn sha256 at after_fork append_op operand rest h =
    rw (message_fits sha256 at append_op operand h) (
      rw
        (read_varbytes-varbytes 4096 1 operand rest h.operand_fits.1 h.operand_fits.0
          (omega (arith, h.operand_fits.1)))
        (moved-goes sha256 at append_op operand rest h))
operate-turn sha256 at after_fork prepend_op operand rest h =
    rw (message_fits sha256 at prepend_op operand h) (
      rw
        (read_varbytes-varbytes 4096 1 operand rest h.operand_fits.1 h.operand_fits.0
          (omega (arith, h.operand_fits.1)))
        (moved-goes sha256 at prepend_op operand rest h))

pub fork-turn :
    (sha256 : Bytes → Bytes) (at : Place) (bytes : Bytes) → turn sha256 at false 0xff bytes ≡ forks
unfolding turn
fork-turn sha256 at bytes = refl
