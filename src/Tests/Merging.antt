-- ===== src/Tests/Merging.antt =====
-- A package whose attestations and operations are numbers, and a database with one node of a tree.
use opentimestamps_server.Prelude.{
  ℕ, Bool, true, false, Option, none, some, List, [], ◌∷◌, Bytes, bytes_eq, bytes_eq_iff, ◌≡◌, ◌==◌,
  ==_iff, refl, sym, subst, ap, starts_with, Bool-cases, inl, inr, ◌&&◌, All,
}
use opentimestamps_server.Prelude.Dict.{lookup}
use opentimestamps_server.Prelude.Distinct.{has, IsFresh}
use opentimestamps_server.Database.{LevelDbCalendar, meta_prefix}
use opentimestamps_server.Database.Timestamps.{
  Timestamp, timestamp, Stamps, leaf, branch, Node, Package, bare_stamps, shallow, op_list,
  add_timestamps, get_timestamp, read_node,
}
use opentimestamps_server.Database.Readback.{IsBare, IsCovered, IsPackage}
use opentimestamps_server.Database.Puts.{IsPlain, IsAbsent}
use opentimestamps_server.Database.Batches.{IsReadable, IsMerged, add_timestamps-IsMerged}

unfoldable mutual
  equal : Timestamp ℕ ℕ → Timestamp ℕ ℕ → Bool
  equal (timestamp m cs os) (timestamp n bs ps) =
      bytes_eq m n && (bytes_eq cs bs && equal_stamps os ps)

  equal_stamps : Stamps ℕ ℕ → Stamps ℕ ℕ → Bool
  equal_stamps leaf leaf = true
  equal_stamps leaf (branch p u ps) = false
  equal_stamps (branch o t os) leaf = false
  equal_stamps (branch o t os) (branch p u ps) = o == p && (equal t u && equal_stamps os ps)

abbrev one_number : Bytes → Option (ℕ × Bytes)
one_number [] = none
one_number (n ∷ rest) = some (n, rest)

abbrev numbers : Package ℕ ℕ
numbers = record {
  same_attestation = λ a b. a == b;
  same_op = λ a b. a == b;
  equal = equal;
  result = λ o msg. o ∷ msg;
  write_varuint = λ n. n ∷ [];
  read_varuint = one_number;
  serialize = λ a. a ∷ [];
  deserialize = one_number;
  serialize_op = λ o. o ∷ [];
  deserialize_op = one_number;
}

both : (a b : Bool) → (a && b) ≡ true → (a ≡ true) × (b ≡ true)
both true b h = (refl, h)
both false b h = cc

IsBare-told :
    (msg : Bytes) (ops : List ℕ) (stamps : Stamps ℕ ℕ)
    → equal_stamps (bare_stamps numbers msg ops) stamps ≡ true
    → (op_list stamps ≡ ops) × IsBare stamps
unfolding equal bare_stamps IsBare op_list
IsBare-told msg [] leaf h = (refl, tt)
IsBare-told msg [] (branch p u rest) h = cc
IsBare-told msg (o ∷ ops) leaf h = cc
IsBare-told msg (o ∷ ops) (branch p (timestamp n cs leaf) rest) h =
    let (same, more) = both (o == p) _ h in
    let (stamp, others) = both (equal (timestamp (o ∷ msg) [] leaf) (timestamp n cs leaf)) _ more in
    let (message, attested) = both (bytes_eq (o ∷ msg) n) _ stamp in
    let (ops_told, bare) = IsBare-told msg ops rest others in
    (
      rw ops_told (ap (λ z. z ∷ ops) (sym ((==_iff o p).0 same))),
      (sym ((bytes_eq_iff [] cs).0 (both (bytes_eq [] cs) _ attested).0), refl, bare),
    )
IsBare-told msg (o ∷ ops) (branch p (timestamp n cs (branch q v os)) rest) h =
    let (same, more) = both (o == p) _ h in
    let (stamp, others) =
      both (equal (timestamp (o ∷ msg) [] leaf) (timestamp n cs (branch q v os))) _ more in
    let (message, attested) = both (bytes_eq (o ∷ msg) n) _ stamp in
    absurd (differ (both (bytes_eq [] cs) false attested).1)
  where
    differ : ◌≡◌ {A = Bool} false true → ⊥
    differ e = cc

equal_covers :
    (msg : Bytes) (node : Node ℕ ℕ) (attestations : List ℕ) (stamps : Stamps ℕ ℕ)
    → equal (shallow numbers msg node) (timestamp msg attestations stamps) ≡ true
    → IsCovered numbers attestations stamps node × IsBare stamps
unfolding equal
equal_covers msg node attestations stamps h =
    let (message, more) = both (bytes_eq msg msg) _ h in
    let (attested, below) = both (bytes_eq node.attestations attestations) _ more in
    let (ops_told, bare) = IsBare-told msg node.ops stamps below in
    let attested_told = (bytes_eq_iff node.attestations attestations).0 attested in
    (
      record {
        attested =
            λ a x. subst (λ zs. has numbers.same_attestation a zs ≡ true) (sym attested_told) x;
        operated = λ o x. subst (λ zs. has numbers.same_op o zs ≡ true) ops_told x;
      },
      bare,
    )

numbers-IsPackage : IsPackage numbers
numbers-IsPackage = record {
  same_attestation_iff = ==_iff;
  same_op_iff = ==_iff;
  varuint = λ n rest. refl;
  attestation = λ n rest. refl;
  op = λ n rest. refl;
  equal_told = equal_covers;
}

-- The root is on file with one attestation; a second one, and an operation, are new.
abbrev database : LevelDbCalendar
database = record { db = (5 ∷ [], 1 ∷ 7 ∷ 0 ∷ []) ∷ []; generation = none; watermark = some 0 }

abbrev stamps : List (Timestamp ℕ ℕ)
stamps = timestamp (5 ∷ []) (8 ∷ []) (branch 2 (timestamp (6 ∷ []) (9 ∷ []) leaf) leaf) ∷ []

database-IsReadable : IsReadable numbers database.db
unfolding get_timestamp lookup read_node IsFresh has
database-IsReadable m = elim (Bool-cases (starts_with m meta_prefix)) [
  | inl meta ↦ rw meta tt
  | inr plain ↦ rw plain (elim (Bool-cases (bytes_eq (5 ∷ []) m)) [
    | inl here ↦ rw here (record { attestations = (refl, tt); ops = tt })
    | inr other ↦ rw other tt
  ])
]

stamps-IsPlain : All IsPlain stamps
unfolding IsPlain IsAbsent starts_with bytes_eq
stamps-IsPlain = ((refl, ((refl, tt), tt), ((refl, tt, tt), tt)), tt)

add_timestamps-IsMerged_example :
    (e : LevelDbCalendar) × (add_timestamps numbers stamps (some 3) database ≡ some e)
    × IsMerged numbers stamps (some 3) database e
add_timestamps-IsMerged_example =
    add_timestamps-IsMerged numbers stamps (some 3) database numbers-IsPackage database-IsReadable
      stamps-IsPlain
