-- ===== src/Database/Puts.antt =====
-- otsserver/calendar.py: the batch and its cache in `LevelDbCalendar.__put_timestamp`.
use mathlib.Core.Option.{some-injective}
use opentimestamps_server.Prelude.{
  false, Option, none, some, List, [], ◌∷◌, ◌++◌, Bytes, bytes_eq, bytes_eq_iff, starts_with,
  if◌then◌else◌, ◌≡◌, refl, sym, ap, subst, ◌∙◌, Bool-cases, Option-cases, inl, inr,
}
use opentimestamps_server.Prelude.Dict.{Dict, lookup, insert, lookup-insert}
use opentimestamps_server.Database.{meta_prefix}
use opentimestamps_server.Database.Timestamps.{
  Timestamp, timestamp, Stamps, leaf, branch, Node, Package, got, read_found, get_timestamp,
  write_node, Batch, write_batch, put_timestamp, existing,
}
use opentimestamps_server.Database.Readback.{IsPackage, IsNode, read_node-write_node}
use opentimestamps_server.Database.Merge.{IsWhole, get_timestamp-insert_other, get_timestamp-insert}

-- The message is none of a timestamp's.
unfoldable mutual
  pub IsAbsent : {A O : Type 0} → Bytes → Timestamp A O → Type 0
  IsAbsent m (timestamp msg attestations stamps) = (bytes_eq msg m ≡ false) × AreAbsent m stamps

  pub AreAbsent : {A O : Type 0} → Bytes → Stamps A O → Type 0
  AreAbsent m leaf = Unit {0}
  AreAbsent m (branch op t rest) = IsAbsent m t × AreAbsent m rest

-- No message is a meta key, and none stands below itself.
unfoldable mutual
  unfolding IsAbsent

  pub IsPlain : {A O : Type 0} → Timestamp A O → Type 0
  IsPlain (timestamp msg attestations stamps) =
      (starts_with msg meta_prefix ≡ false) × AreAbsent msg stamps × ArePlain stamps

  pub ArePlain : {A O : Type 0} → Stamps A O → Type 0
  ArePlain leaf = Unit {0}
  ArePlain (branch op t rest) = IsPlain t × ArePlain rest

pub write_batch-append :
    (puts : List (Bytes × Bytes)) (key value : Bytes) (db : Dict Bytes)
    → write_batch (puts ++ (key, value) ∷ []) db ≡ insert key value (write_batch puts db)
unfolding write_batch
write_batch-append [] key value db = refl
write_batch-append ((k, v) ∷ puts) key value db = write_batch-append puts key value (insert k v db)

module _ {A O : Type 0} (p : Package A O) (laws : IsPackage p) (db : Dict Bytes) where
  -- The database as it is once the batch is written.
  abbrev pub after_batch : Batch A O → Dict Bytes
  after_batch b = write_batch b.puts db

  -- The cache tells what the batch will have written.
  pub record IsBatch (b : Batch A O) : Type 0 where
    pub cached :
        (m : Bytes) (node : Node A O)
        → lookup m b.cache ≡ some node
        → (lookup m (after_batch b) ≡ some (write_node p node)) × IsNode p node
    pub passed : (m : Bytes) → lookup m b.cache ≡ none → lookup m (after_batch b) ≡ lookup m db
    pub whole : (m : Bytes) → IsWhole p (get_timestamp p (after_batch b) m)

  pub existing-get_timestamp :
      (m : Bytes) (b : Batch A O)
      → starts_with m meta_prefix ≡ false
      → IsBatch b
      → existing p db m b ≡ get_timestamp p (after_batch b) m
  unfolding existing get_timestamp
  existing-get_timestamp m b plain h = elim (Option-cases (lookup m b.cache)) [
    | inl e ↦ rw e (rw plain (ap (λ r. read_found p r) (sym (h.passed m e))))
    | inr (node, e) ↦ rw e (
        rw plain
          (rw (h.cached m node e).0 (sym (read_node-write_node p laws node (h.cached m node e).1))))
  ]

  pub record IsPut (msg : Bytes) (node : Node A O) (b c : Batch A O) : Type 0 where
    pub batch : IsBatch c
    pub put : get_timestamp p (after_batch c) msg ≡ got node
    pub others :
        (m : Bytes)
        → bytes_eq msg m ≡ false
        → get_timestamp p (after_batch c) m ≡ get_timestamp p (after_batch b) m

  pub put_timestamp-IsPut :
      (msg : Bytes) (node : Node A O) (b : Batch A O)
      → starts_with msg meta_prefix ≡ false
      → IsNode p node
      → IsBatch b
      → IsPut msg node b (put_timestamp p msg node b)
  put_timestamp-IsPut msg node b plain is_node h = record {
    batch = record { cached = told; passed = untold; whole = reads };
    put = rw after (get_timestamp-insert p laws msg node (after_batch b) plain is_node);
    others = elsewhere;
  }
    where
      after :
          after_batch (put_timestamp p msg node b) ≡ insert msg (write_node p node) (after_batch b)
      after = write_batch-append b.puts msg (write_node p node) db

      elsewhere :
          (m : Bytes)
          → bytes_eq msg m ≡ false
          → get_timestamp p (after_batch (put_timestamp p msg node b)) m
            ≡ get_timestamp p (after_batch b) m
      elsewhere m ne =
          rw after (get_timestamp-insert_other p msg (write_node p node) m (after_batch b) ne)

      reads : (m : Bytes) → IsWhole p (get_timestamp p (after_batch (put_timestamp p msg node b)) m)
      reads m = elim (Bool-cases (bytes_eq msg m)) [
        | inl e ↦
            subst (λ k. IsWhole p (get_timestamp p (after_batch (put_timestamp p msg node b)) k))
              ((bytes_eq_iff msg m).0 e)
              (rw after
                (rw (get_timestamp-insert p laws msg node (after_batch b) plain is_node) is_node))
        | inr ne ↦ rw (elsewhere m ne) (h.whole m)
      ]

      told :
          (m : Bytes) (n : Node A O)
          → lookup m (insert msg node b.cache) ≡ some n
          → (lookup m (after_batch (put_timestamp p msg node b)) ≡ some (write_node p n))
            × IsNode p n
      told m n e = elim (Bool-cases (bytes_eq msg m)) [
        | inl same ↦
            let n_is = some-injective node n (
              subst (λ t. (if t then some node else lookup m b.cache) ≡ some n) same
                (sym (lookup-insert msg m node b.cache) ∙ e)) in
            (
              rw after (
                  rw (lookup-insert msg m (write_node p node) (after_batch b))
                    (rw same (rw n_is refl))),
              subst (λ z. IsNode p z) n_is is_node,
            )
        | inr ne ↦
            let old = h.cached m n (
              subst (λ t. (if t then some node else lookup m b.cache) ≡ some n) ne
                (sym (lookup-insert msg m node b.cache) ∙ e)) in
            (
              rw after (rw (lookup-insert msg m (write_node p node) (after_batch b)) (rw ne old.0)),
              old.1,
            )
      ]

      untold :
          (m : Bytes)
          → lookup m (insert msg node b.cache) ≡ none
          → lookup m (after_batch (put_timestamp p msg node b)) ≡ lookup m db
      untold m e = elim (Bool-cases (bytes_eq msg m)) [
        | inl same ↦ absurd (
            some_none (
              subst (λ t. (if t then some node else lookup m b.cache) ≡ none) same
                (sym (lookup-insert msg m node b.cache) ∙ e)))
        | inr ne ↦ rw after (
            rw (lookup-insert msg m (write_node p node) (after_batch b)) (
              rw ne (
                h.passed m (
                  subst (λ t. (if t then some node else lookup m b.cache) ≡ none) ne
                    (sym (lookup-insert msg m node b.cache) ∙ e)))))
      ]
        where
          some_none : ◌≡◌ {A = Option (Node A O)} (some node) none → ⊥
          some_none x = cc
