-- ===== src/VerifyClaim/Paths.antt =====
-- ops/verify_claim.py: what a turn of the loop of `parse_proof` makes of a path.
use Prim.Native.Nat.{zero, suc}
use opentimestamps_server.Prelude.{
  ℕ, ◌+◌, ◌*◌, ◌/◌, ◌%◌, ◌^◌, ◌≤◌, Bool, true, false, ◌||◌, Option, none, some, List, [], ◌∷◌, ◌++◌,
  Bytes, take, drop, length, length-append, length-drop, ltb, ◌==◌, if◌then◌else◌, ◌≡◌, refl, sym,
  ap, ◌∙◌, arith, Bool-cases, inl, inr,
}
use opentimestamps_server.VerifyClaim.{
  max_operand, max_msg, max_ops_on_a_path, Op, sha256_op, append_op, prepend_op, Step, Kind,
  Attestation, varuint_from, read_varuint, varbytes_of, read_varbytes, kind_of, Place, Turn, forks,
  fails, ends, goes, attested, with_payload, read_attestation, moved, appended, prepended, operated,
  turn,
}

-- What an operation makes of a message.
abbrev pub apply : (Bytes → Bytes) → Op → Bytes → Bytes → Bytes
apply sha256 sha256_op operand msg = sha256 msg
apply sha256 append_op operand msg = msg ++ operand
apply sha256 prepend_op operand msg = operand ++ msg

-- The operations of a path lead from its start to its end, by results of at most 4096 bytes.
unfoldable pub IsPath : (Bytes → Bytes) → Bytes → List Step → Bytes → Type 0
IsPath sha256 start [] end = start ≡ end
IsPath sha256 start (s ∷ steps) end =
    (s.result ≡ apply sha256 s.op s.operand start)
    × (length s.result ≤ max_operand)
    × IsPath sha256 s.result steps end

append-IsPath :
    (sha256 : Bytes → Bytes) (start middle : Bytes) (steps : List Step) (s : Step)
    → IsPath sha256 start steps middle
    → s.result ≡ apply sha256 s.op s.operand middle
    → length s.result ≤ max_operand
    → IsPath sha256 start (steps ++ s ∷ []) s.result
unfolding IsPath
append-IsPath sha256 start middle [] s h e le =
    (e ∙ ap (apply sha256 s.op s.operand) (sym h), le, refl)
append-IsPath sha256 start middle (r ∷ steps) s (same, short, h) e le =
    (same, short, append-IsPath sha256 r.result middle steps s h e le)

-- A read leaves no more than there was.
abbrev IsRest : {A : Type 0} → ℕ → Option (A × Bytes) → Type 0
IsRest n none = Unit {0}
IsRest n (some (a, rest)) = length rest ≤ n

varuint_from-IsRest :
    (left shift value : ℕ) (bytes : Bytes)
    → IsRest (length bytes) (varuint_from left shift value bytes)
unfolding varuint_from
varuint_from-IsRest left shift value [] = tt
varuint_from-IsRest zero shift value (b ∷ bytes) = tt
varuint_from-IsRest (suc left) shift value (b ∷ bytes) = elim (Bool-cases (b / 128 % 2 == 0)) [
  | inl last ↦ rw last (omega arith)
  | inr more ↦ rw more (
      longer (varuint_from left (shift + 7) (value + b % 128 * 2 ^ shift) bytes)
        (varuint_from-IsRest left (shift + 7) (value + b % 128 * 2 ^ shift) bytes))
]
  where
    longer : (o : Option (ℕ × Bytes)) → IsRest (length bytes) o → IsRest (suc (length bytes)) o
    longer none h = tt
    longer (some (n, rest)) h = omega (arith, h)

read_varbytes-IsRest :
    (max_len min_len : ℕ) (bytes : Bytes)
    → IsRest (length bytes) (read_varbytes max_len min_len bytes)
unfolding read_varbytes
read_varbytes-IsRest max_len min_len bytes =
    counted (read_varuint bytes) (varuint_from-IsRest 10 0 0 bytes)
  where
    counted :
        (o : Option (ℕ × Bytes))
        → IsRest (length bytes) o
        → IsRest (length bytes) (varbytes_of max_len min_len o)
    counted none h = tt
    counted (some (n, rest)) h =
        elim (Bool-cases (ltb max_len n || (ltb n min_len || ltb (length rest) n))) [
          | inl bad ↦ rw bad tt
          | inr good ↦ rw good (omega (arith, length-drop n rest, h))
        ]

module _ (sha256 : Bytes → Bytes) (digest : Bytes) where
  -- An attestation at the end of a path from the digest.
  pub record IsTied (a : Attestation) : Type 0 where
    pub path : IsPath sha256 digest a.path a.msg
    pub short : length a.path ≤ max_ops_on_a_path

  pub record IsPlace (at : Place) : Type 0 where
    pub path : IsPath sha256 digest at.path at.msg
    pub counted : at.ops ≡ length at.path
    pub short : length at.path ≤ max_ops_on_a_path

  abbrev pub IsTurn : ℕ → Turn → Type 0
  IsTurn n forks = Unit {0}
  IsTurn n fails = Unit {0}
  IsTurn n (ends a rest) = IsTied a × (length rest ≤ n)
  IsTurn n (goes at rest) = IsPlace at × (length rest ≤ n)

  module _ (at : Place) (h : IsPlace at) where
    moved-IsTurn :
        (n : ℕ) (op : Op) (operand result rest : Bytes)
        → result ≡ apply sha256 op operand at.msg
        → length rest ≤ n
        → IsTurn n (moved at op operand result rest)
    moved-IsTurn n op operand result rest e le =
        elim (Bool-cases (ltb max_operand (length result) || ltb max_ops_on_a_path (at.ops + 1))) [
          | inl long ↦ rw long tt
          | inr short ↦ rw short (
            record {
              path =
                  append-IsPath sha256 digest at.msg at.path
                    (record { op = op; operand = operand; result = result }) h.path e
                    (ground (arith, short));
              counted = omega (
                arith,
                h.counted,
                length-append at.path (record { op = op; operand = operand; result = result } ∷ []),
              );
              short =
                  rw
                    (length-append at.path
                      (record { op = op; operand = operand; result = result } ∷ []))
                    (ground (arith, short, h.counted));
            },
            le,
          )
        ]

    attested-IsTurn :
        (n : ℕ) (rest : Bytes) (o : Option Kind) → length rest ≤ n → IsTurn n (attested at rest o)
    attested-IsTurn n rest none le = tt
    attested-IsTurn n rest (some kind) le = (record { path = h.path; short = h.short }, le)

    read_attestation-IsTurn : (bytes : Bytes) → IsTurn (length bytes) (read_attestation at bytes)
    read_attestation-IsTurn bytes = elim (Bool-cases (length (take 8 bytes) == 8)) [
      | inl there ↦
          rw there (
            told (read_varbytes 8192 0 (drop 8 bytes)) (read_varbytes-IsRest 8192 0 (drop 8 bytes)))
      | inr cut ↦ rw cut tt
    ]
      where
        told :
            (o : Option (Bytes × Bytes))
            → IsRest (length (drop 8 bytes)) o
            → IsTurn (length bytes) (with_payload at (take 8 bytes) o)
        told none le = tt
        told (some (payload, rest)) le =
            attested-IsTurn (length bytes) rest (kind_of (take 8 bytes) payload)
              (omega (arith, le, length-drop 8 bytes))

    appended-IsTurn : (n : ℕ) (o : Option (Bytes × Bytes)) → IsRest n o → IsTurn n (appended at o)
    appended-IsTurn n none le = tt
    appended-IsTurn n (some (operand, rest)) le =
        moved-IsTurn n append_op operand (at.msg ++ operand) rest refl le

    prepended-IsTurn : (n : ℕ) (o : Option (Bytes × Bytes)) → IsRest n o → IsTurn n (prepended at o)
    prepended-IsTurn n none le = tt
    prepended-IsTurn n (some (operand, rest)) le =
        moved-IsTurn n prepend_op operand (operand ++ at.msg) rest refl le

    operated-IsTurn :
        (tag : ℕ) (bytes : Bytes) → IsTurn (length bytes) (operated sha256 at tag bytes)
    operated-IsTurn tag bytes = elim (Bool-cases (ltb max_msg (length at.msg))) [
      | inl long ↦ rw long tt
      | inr fits ↦ rw fits (elim (Bool-cases (tag == 0x08)) [
        | inl hash ↦
            rw hash
              (moved-IsTurn (length bytes) sha256_op [] (sha256 at.msg) bytes refl (omega arith))
        | inr other ↦ rw other (elim (Bool-cases (tag == 0xf0)) [
          | inl append ↦ rw append (
              appended-IsTurn (length bytes) (read_varbytes 4096 1 bytes)
                (read_varbytes-IsRest 4096 1 bytes))
          | inr different ↦ rw different (elim (Bool-cases (tag == 0xf1)) [
            | inl prepend ↦ rw prepend (
                prepended-IsTurn (length bytes) (read_varbytes 4096 1 bytes)
                  (read_varbytes-IsRest 4096 1 bytes))
            | inr strange ↦ rw strange tt
          ])
        ])
      ])
    ]

    pub turn-IsTurn :
        (after_fork : Bool) (tag : ℕ) (bytes : Bytes)
        → IsTurn (length bytes) (turn sha256 at after_fork tag bytes)
    unfolding turn
    turn-IsTurn after_fork tag bytes = elim (Bool-cases (tag == 0xff)) [
      | inl fork ↦ rw fork (opened after_fork)
      | inr other ↦ rw other (elim (Bool-cases (tag == 0x00)) [
        | inl mark ↦ rw mark (read_attestation-IsTurn bytes)
        | inr op ↦ rw op (operated-IsTurn tag bytes)
      ])
    ]
      where
        opened : (b : Bool) → IsTurn (length bytes) (if b then fails else forks)
        opened true = tt
        opened false = tt
