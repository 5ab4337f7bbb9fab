-- ===== src/Database/Timestamps.antt =====
-- otsserver/calendar.py: the reads, the writes and the merges of `LevelDbCalendar`, on the timestamps of
-- the opentimestamps package.
use Prim.Native.Nat.{zero, suc}
use opentimestamps_server.Prelude.{
  ℕ, Bool, true, false, Option, none, some, List, [], ◌∷◌, ◌++◌, Bytes, starts_with, length,
  if◌then◌else◌,
}
use opentimestamps_server.Prelude.Dict.{Dict, lookup, insert}
use opentimestamps_server.Prelude.Distinct.{has, update}
use opentimestamps_server.Checkpoint.{decimal}
use opentimestamps_server.Database.{LevelDbCalendar, meta_prefix, meta_watermark}

-- `Timestamp`: its message, its attestations, and its operations with the timestamps of their results.
mutual
  pub data Timestamp (A O : Type 0) : Type 0 where
    timestamp : Bytes → List A → Stamps A O → Timestamp A O

  pub data Stamps (A O : Type 0) : Type 0 where
    leaf : Stamps A O
    branch : O → Timestamp A O → Stamps A O → Stamps A O

-- A timestamp by itself, without those of its operations' results.
pub record Node (A O : Type 0) : Type 0 where
  pub attestations : List A
  pub ops : List O

-- What the code takes of the opentimestamps package: equality, `op(msg)`, and the serialization.
pub record Package (A O : Type 0) : Type 0 where
  pub same_attestation : A → A → Bool
  pub same_op : O → O → Bool
  pub equal : Timestamp A O → Timestamp A O → Bool
  pub result : O → Bytes → Bytes
  pub write_varuint : ℕ → Bytes
  pub read_varuint : Bytes → Option (ℕ × Bytes)
  pub serialize : A → Bytes
  pub deserialize : Bytes → Option (A × Bytes)
  pub serialize_op : O → Bytes
  pub deserialize_op : Bytes → Option (O × Bytes)

-- How `__get_timestamp` ends.
pub data Got (A O : Type 0) : Type 0 where
  got : Node A O → Got A O
  key_error raises : Got A O

-- A loop of deserialization, with its assertion that no element comes twice.
module _ {T : Type 0} (same : T → T → Bool) (deserialize : Bytes → Option (T × Bytes)) where
  abbrev pub kept_item : Bool → List T → Option (List T × Bytes) → Option (List T × Bytes)
  kept_item true acc rest = none
  kept_item false acc rest = rest

  unfoldable pub read_items : ℕ → List T → Bytes → Option (List T × Bytes)
  read_items zero acc raw = some (acc, raw)
  read_items (suc n) acc raw = elim (deserialize raw) [
    | none ↦ none
    | some (x, rest) ↦ kept_item (has same x acc) acc (read_items n (acc ++ x ∷ []) rest)
  ]

  abbrev pub read_counted : Option (ℕ × Bytes) → Option (List T × Bytes)
  read_counted none = none
  read_counted (some (n, raw)) = read_items n [] raw

unfoldable pub write_items : {T : Type 0} → (T → Bytes) → List T → Bytes
write_items serialize [] = []
write_items serialize (x ∷ xs) = serialize x ++ write_items serialize xs

module _ {A O : Type 0} (p : Package A O) where
  abbrev pub read_ops_of : List A → Option (List O × Bytes) → Got A O
  read_ops_of attestations none = raises
  read_ops_of attestations (some (ops, rest)) =
      got (record { attestations = attestations; ops = ops })

  abbrev pub read_ops : Option (List A × Bytes) → Got A O
  read_ops none = raises
  read_ops (some (attestations, raw)) =
      read_ops_of attestations (read_counted p.same_op p.deserialize_op (p.read_varuint raw))

  unfoldable pub read_node : Bytes → Got A O
  unfolding read_items
  read_node raw = read_ops (read_counted p.same_attestation p.deserialize (p.read_varuint raw))

  abbrev pub read_found : Option Bytes → Got A O
  read_found none = key_error
  read_found (some raw) = read_node raw

  -- `__get_timestamp`
  unfoldable pub get_timestamp : Dict Bytes → Bytes → Got A O
  get_timestamp db msg =
      if starts_with msg meta_prefix then key_error else read_found (lookup msg db)

  -- The bytes of `__put_timestamp`.
  unfoldable pub write_node : Node A O → Bytes
  unfolding write_items
  write_node node =
      p.write_varuint (length node.attestations)
      ++ (write_items p.serialize node.attestations
          ++ (p.write_varuint (length node.ops) ++ write_items p.serialize_op node.ops))

-- A batch, in the order of its puts, and its cache.
pub record Batch (A O : Type 0) : Type 0 where
  pub puts : List (Bytes × Bytes)
  pub cache : Dict (Node A O)

-- `batch.write()`: a later put of a key replaces an earlier one.
unfoldable pub write_batch : List (Bytes × Bytes) → Dict Bytes → Dict Bytes
write_batch [] db = db
write_batch ((key, value) ∷ puts) db = write_batch puts (insert key value db)

module _ {A O : Type 0} where
  unfoldable pub op_list : Stamps A O → List O
  op_list leaf = []
  op_list (branch op t rest) = op ∷ op_list rest

  -- The timestamp that `__get_timestamp` makes of a node: its operations lead to bare timestamps.
  unfoldable pub bare_stamps : Package A O → Bytes → List O → Stamps A O
  bare_stamps p msg [] = leaf
  bare_stamps p msg (op ∷ ops) =
      branch op (timestamp (p.result op msg) [] leaf) (bare_stamps p msg ops)

  abbrev pub shallow : Package A O → Bytes → Node A O → Timestamp A O
  shallow p msg node = timestamp msg node.attestations (bare_stamps p msg node.ops)

module _ {A O : Type 0} (p : Package A O) where
  -- `__put_timestamp`
  abbrev pub put_timestamp : Bytes → Node A O → Batch A O → Batch A O
  put_timestamp msg node b = record {
    puts = b.puts ++ (msg, write_node p node) ∷ [];
    cache = insert msg node b.cache;
  }

  abbrev pub merge : List A → List O → Node A O → Node A O
  merge attestations ops node = record {
    attestations = update p.same_attestation node.attestations attestations;
    ops = update p.same_op node.ops ops;
  }

  abbrev pub put_after : Bytes → Node A O → Option (Batch A O) → Option (Batch A O)
  put_after msg node none = none
  put_after msg node (some b) = some (put_timestamp msg node b)

module _ {A O : Type 0} (p : Package A O) (db : Dict Bytes) where
  abbrev pub cached : Bytes → Option (Node A O) → Got A O
  cached msg none = get_timestamp p db msg
  cached msg (some node) = got node

  unfoldable pub existing : Bytes → Batch A O → Got A O
  existing msg b = cached msg (lookup msg b.cache)

  -- `below` is the batch after the timestamps of the operations' results.
  abbrev pub merged :
      Bytes → List A → Stamps A O → Batch A O → Option (Batch A O) → Got A O → Option (Batch A O)
  merged msg attestations stamps b below raises = none
  merged msg attestations stamps b below key_error =
      put_after p msg
        (merge p attestations (op_list stamps) (record { attestations = []; ops = [] })) below
  merged msg attestations stamps b below (got node) =
      if p.equal (shallow p msg node) (timestamp msg attestations stamps)
      then some b
      else put_after p msg (merge p attestations (op_list stamps) node) below

  -- `__add_timestamp`; `none` is an exception. The timestamp that it changes is the call's own, as
  -- it is in the code unless a message stands below itself.
  unfoldable mutual
    unfolding existing op_list

    pub add_timestamp : Timestamp A O → Batch A O → Option (Batch A O)
    add_timestamp (timestamp msg attestations stamps) b =
        merged msg attestations stamps b (add_stamps stamps b) (existing msg b)

    pub add_stamps : Stamps A O → Batch A O → Option (Batch A O)
    add_stamps leaf b = some b
    add_stamps (branch op t rest) b = elim (add_timestamp t b) [
      | none ↦ none
      | some after ↦ add_stamps rest after
    ]

  unfoldable pub add_all : List (Timestamp A O) → Batch A O → Option (Batch A O)
  unfolding add_timestamp
  add_all [] b = some b
  add_all (t ∷ ts) b = elim (add_timestamp t b) [ none ↦ none | some after ↦ add_all ts after ]

abbrev pub written :
    {A O : Type 0} → Option ℕ → LevelDbCalendar → Option (Batch A O) → Option LevelDbCalendar
written watermark d none = none
written none d (some b) = some (record d { db = write_batch b.puts d.db })
written (some w) d (some b) = some (record d {
  db = write_batch (b.puts ++ (meta_watermark, decimal w) ∷ []) d.db;
  watermark = some w;
})

-- `add_timestamps`
unfoldable pub add_timestamps :
    {A O : Type 0}
    → Package A O
    → List (Timestamp A O)
    → Option ℕ
    → LevelDbCalendar
    → Option LevelDbCalendar
unfolding add_all write_batch
add_timestamps p ts watermark d =
    written watermark d (add_all p d.db ts (record { puts = []; cache = [] }))
