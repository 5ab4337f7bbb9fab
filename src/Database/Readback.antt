-- ===== src/Database/Readback.antt =====
-- otsserver/calendar.py: `LevelDbCalendar.__get_timestamp` of what `__put_timestamp` writes.
use opentimestamps_server.Prelude.{
  ℕ, Bool, true, Option, some, List, [], ◌∷◌, ◌++◌, append-nil, append_assoc, Bytes, length, ◌≡◌,
  ◌↔◌, refl, ap, subst, ◌∙◌,
}
use opentimestamps_server.Prelude.Distinct.{has, IsFresh}
use opentimestamps_server.Database.Timestamps.{
  timestamp, Stamps, leaf, branch, Node, Package, got, read_items, write_items, read_node,
  write_node, op_list, shallow,
}

-- Every timestamp below these operations is bare.
unfoldable pub IsBare : {A O : Type 0} → Stamps A O → Type 0
IsBare leaf = Unit {0}
IsBare (branch op (timestamp msg attestations stamps) rest) =
    (attestations ≡ []) × (stamps ≡ leaf) × IsBare rest

-- Every attestation and every operation of a timestamp is the node's.
pub record IsCovered {A O : Type 0} (p : Package A O) (attestations : List A) (stamps : Stamps A O)
    (node : Node A O) : Type 0 where
  pub attested :
      (a : A)
      → has p.same_attestation a attestations ≡ true
      → has p.same_attestation a node.attestations ≡ true
  pub operated : (o : O) → has p.same_op o (op_list stamps) ≡ true → has p.same_op o node.ops ≡ true

-- What is documented of the package: each element is read back from what is written of it, and
-- timestamps that are equal have the same attestations and the same operations, to equal results.
pub record IsPackage {A O : Type 0} (p : Package A O) : Type 0 where
  pub same_attestation_iff : (a b : A) → (p.same_attestation a b ≡ true) ↔ (a ≡ b)
  pub same_op_iff : (a b : O) → (p.same_op a b ≡ true) ↔ (a ≡ b)
  pub varuint : (n : ℕ) (rest : Bytes) → p.read_varuint (p.write_varuint n ++ rest) ≡ some (n, rest)
  pub attestation : (a : A) (rest : Bytes) → p.deserialize (p.serialize a ++ rest) ≡ some (a, rest)
  pub op : (o : O) (rest : Bytes) → p.deserialize_op (p.serialize_op o ++ rest) ≡ some (o, rest)
  pub equal_told :
      (msg : Bytes) (node : Node A O) (attestations : List A) (stamps : Stamps A O)
      → p.equal (shallow p msg node) (timestamp msg attestations stamps) ≡ true
      → IsCovered p attestations stamps node × IsBare stamps

-- Its attestations and its operations are sets.
pub record IsNode {A O : Type 0} (p : Package A O) (node : Node A O) : Type 0 where
  pub attestations : IsFresh p.same_attestation [] node.attestations
  pub ops : IsFresh p.same_op [] node.ops

module _ {T : Type 0} (same : T → T → Bool) (serialize : T → Bytes)
    (deserialize : Bytes → Option (T × Bytes))
    (law : (x : T) (rest : Bytes) → deserialize (serialize x ++ rest) ≡ some (x, rest)) where
  pub read_items-write_items :
      (xs acc : List T) (rest : Bytes)
      → IsFresh same acc xs
      → read_items same deserialize (length xs) acc (write_items serialize xs ++ rest)
        ≡ some (acc ++ xs, rest)
  unfolding read_items write_items IsFresh
  read_items-write_items [] acc rest h = rw (append-nil acc) refl
  read_items-write_items (x ∷ xs) acc rest (new, h) =
      rw (append_assoc (serialize x) (write_items serialize xs) rest) (
        rw (law x (write_items serialize xs ++ rest)) (
          rw new (
            read_items-write_items xs (acc ++ x ∷ []) rest h
            ∙ ap (λ zs. some (zs, rest)) (append_assoc acc (x ∷ []) xs))))

pub read_node-write_node :
    {A O : Type 0} (p : Package A O) (laws : IsPackage p) (node : Node A O)
    → IsNode p node
    → read_node p (write_node p node) ≡ got node
unfolding read_node write_node
read_node-write_node p laws node h =
    let ops_text = write_items p.serialize_op node.ops in
    let counted = p.write_varuint (length node.ops) ++ ops_text in
    rw
      (laws.varuint (length node.attestations)
        (write_items p.serialize node.attestations ++ counted))
      (rw
        (read_items-write_items p.same_attestation p.serialize p.deserialize laws.attestation
          node.attestations [] counted h.attestations)
        (rw (laws.varuint (length node.ops) ops_text) (rw (ops_read) refl)))
  where
    ops_read :
        read_items p.same_op p.deserialize_op
          (length node.ops)
          []
          (write_items p.serialize_op node.ops)
        ≡ some (node.ops, [])
    ops_read =
        subst
          (λ raw.
            read_items p.same_op p.deserialize_op (length node.ops) [] raw ≡ some (node.ops, []))
          (append-nil (write_items p.serialize_op node.ops))
          (read_items-write_items p.same_op p.serialize_op p.deserialize_op laws.op node.ops [] []
            h.ops)
