-- ===== src/Database/Merge.antt =====
-- otsserver/calendar.py: what a database of `LevelDbCalendar` holds of a timestamp.
use opentimestamps_server.Prelude.{
  true, false, List, [], Bytes, bytes_eq, bytes_eq_iff, bytes_eq_refl, starts_with, ◌≡◌, refl,
  subst, Bool-cases, inl, inr,
}
use opentimestamps_server.Prelude.Dict.{Dict, insert, lookup-insert}
use opentimestamps_server.Prelude.Distinct.{
  has, IsFresh, has-update, has-update_old, update-IsFresh,
}
use opentimestamps_server.Database.{meta_prefix}
use opentimestamps_server.Database.Timestamps.{
  Timestamp, timestamp, Stamps, leaf, branch, Node, Package, Got, got, key_error, raises,
  get_timestamp, write_node, op_list, merge,
}
use opentimestamps_server.Database.Readback.{
  IsBare, IsCovered, IsPackage, IsNode, read_node-write_node,
}

abbrev pub no_node : {A O : Type 0} → Node A O
no_node = record { attestations = []; ops = [] }

abbrev pub node_of : {A O : Type 0} → Got A O → Node A O
node_of (got node) = node
node_of key_error = no_node
node_of raises = no_node

-- The key is read, or there is no such key: nothing raises.
abbrev pub IsWhole : {A O : Type 0} → Package A O → Got A O → Type 0
IsWhole p (got node) = IsNode p node
IsWhole p key_error = Unit {0}
IsWhole p raises = ⊥

pub record IsPart {A O : Type 0} (p : Package A O) (m n : Node A O) : Type 0 where
  pub attested :
      (a : A)
      → has p.same_attestation a m.attestations ≡ true
      → has p.same_attestation a n.attestations ≡ true
  pub operated : (o : O) → has p.same_op o m.ops ≡ true → has p.same_op o n.ops ≡ true

pub IsPart-refl :
    {A O : Type 0} (p : Package A O) (m n : Got A O) → n ≡ m → IsPart p (node_of m) (node_of n)
IsPart-refl p m n e = rw e (record { attested = λ a h. h; operated = λ o h. h })

module _ {A O : Type 0} (p : Package A O) where
  -- The node of a message in a database, empty where there is none.
  abbrev pub node_at : Dict Bytes → Bytes → Node A O
  node_at db msg = node_of (get_timestamp p db msg)

  -- Every attestation and every operation of a timestamp, and of those below it, is in the database.
  unfoldable mutual
    pub IsHeld : Dict Bytes → Timestamp A O → Type 0
    IsHeld db (timestamp msg attestations stamps) =
        IsCovered p attestations stamps (node_at db msg) × AreHeld db stamps

    pub AreHeld : Dict Bytes → Stamps A O → Type 0
    AreHeld db leaf = Unit {0}
    AreHeld db (branch op t rest) = IsHeld db t × AreHeld db rest

  abbrev pub IsGrown : Dict Bytes → Dict Bytes → Type 0
  IsGrown db after = (msg : Bytes) → IsPart p (node_at db msg) (node_at after msg)

  pub IsGrown-trans : (d e f : Dict Bytes) → IsGrown d e → IsGrown e f → IsGrown d f
  IsGrown-trans d e f g h msg = record {
    attested = λ a x. (h msg).attested a ((g msg).attested a x);
    operated = λ o x. (h msg).operated o ((g msg).operated o x);
  }

  mutual
    unfolding IsHeld

    pub IsHeld-grown :
        (d e : Dict Bytes) (t : Timestamp A O) → IsGrown d e → IsHeld d t → IsHeld e t
    IsHeld-grown d e (timestamp msg attestations stamps) g (h, hs) = (
      record {
        attested = λ a x. (g msg).attested a (h.attested a x);
        operated = λ o x. (g msg).operated o (h.operated o x);
      },
      AreHeld-grown d e stamps g hs,
    )

    pub AreHeld-grown :
        (d e : Dict Bytes) (stamps : Stamps A O) → IsGrown d e → AreHeld d stamps → AreHeld e stamps
    AreHeld-grown d e leaf g h = tt
    AreHeld-grown d e (branch op t rest) g (h, hs) =
        (IsHeld-grown d e t g h, AreHeld-grown d e rest g hs)

  pub bare-AreHeld : (db : Dict Bytes) (stamps : Stamps A O) → IsBare stamps → AreHeld db stamps
  unfolding IsHeld IsBare has op_list
  bare-AreHeld db leaf h = tt
  bare-AreHeld db (branch op (timestamp msg attestations stamps) rest)
        (none_attested, none_below, h) =
      (
        rw none_attested
            (rw none_below (record { attested = λ a x. cc; operated = λ o x. cc }, tt)),
        bare-AreHeld db rest h,
      )

  -- A put is seen at its own key only, and never at a key of the other kind.
  pub get_timestamp-insert_other :
      (key value msg : Bytes) (db : Dict Bytes)
      → bytes_eq key msg ≡ false
      → get_timestamp p (insert key value db) msg ≡ get_timestamp p db msg
  unfolding get_timestamp
  get_timestamp-insert_other key value msg db ne = rw (lookup-insert key msg value db) (rw ne refl)

  pub get_timestamp-insert_meta :
      (key value msg : Bytes) (db : Dict Bytes)
      → starts_with key meta_prefix ≡ true
      → get_timestamp p (insert key value db) msg ≡ get_timestamp p db msg
  unfolding get_timestamp
  get_timestamp-insert_meta key value msg db meta = elim (Bool-cases (bytes_eq key msg)) [
    | inl e ↦
        rw (subst (λ k. starts_with k meta_prefix ≡ true) ((bytes_eq_iff key msg).0 e) meta) refl
    | inr ne ↦ get_timestamp-insert_other key value msg db ne
  ]

  pub get_timestamp-insert :
      (laws : IsPackage p) (msg : Bytes) (node : Node A O) (db : Dict Bytes)
      → starts_with msg meta_prefix ≡ false
      → IsNode p node
      → get_timestamp p (insert msg (write_node p node) db) msg ≡ got node
  unfolding get_timestamp
  get_timestamp-insert laws msg node db plain h = rw plain (
      rw (lookup-insert msg msg (write_node p node) db)
        (rw (bytes_eq_refl msg) (read_node-write_node p laws node h)))

  pub merge-IsNode :
      (attestations : List A) (ops : List O) (g : Got A O)
      → IsWhole p g
      → IsNode p (merge p attestations ops (node_of g))
  unfolding IsFresh
  merge-IsNode attestations ops (got node) h = record {
    attestations = update-IsFresh p.same_attestation node.attestations attestations h.attestations;
    ops = update-IsFresh p.same_op node.ops ops h.ops;
  }
  merge-IsNode attestations ops key_error h = record {
    attestations = update-IsFresh p.same_attestation [] attestations tt;
    ops = update-IsFresh p.same_op [] ops tt;
  }
  merge-IsNode attestations ops raises h = absurd h

  pub IsPart-merge :
      (attestations : List A) (ops : List O) (node : Node A O)
      → IsPart p node (merge p attestations ops node)
  IsPart-merge attestations ops node = record {
    attested = λ a h. has-update_old p.same_attestation a node.attestations attestations h;
    operated = λ o h. has-update_old p.same_op o node.ops ops h;
  }

  pub merge-IsCovered :
      (laws : IsPackage p) (attestations : List A) (stamps : Stamps A O) (node : Node A O)
      → IsCovered p attestations stamps (merge p attestations (op_list stamps) node)
  merge-IsCovered laws attestations stamps node = record {
    attested = λ a h.
        has-update p.same_attestation laws.same_attestation_iff a node.attestations attestations h;
    operated = λ o h. has-update p.same_op laws.same_op_iff o node.ops (op_list stamps) h;
  }
