-- ===== src/Database/Batches.antt =====
-- otsserver/calendar.py: `LevelDbCalendar.add_timestamps`, and the database before and after it.
use opentimestamps_server.Prelude.{
  ℕ, Option, none, some, List, [], ◌∷◌, ◌++◌, Bytes, bytes_eq, bytes_eq_refl, if◌then◌else◌,
  starts_with, ◌≡◌, refl, ap, ◌∙◌, sym, subst,
}
use opentimestamps_server.Prelude.Dict.{Dict, insert, lookup, lookup-insert}
use opentimestamps_server.Prelude.{All}
use opentimestamps_server.Checkpoint.{decimal}
use opentimestamps_server.Database.{LevelDbCalendar, meta_watermark}
use opentimestamps_server.Database.Timestamps.{
  Timestamp, Package, get_timestamp, Batch, write_batch, add_all, written, add_timestamps,
}
use opentimestamps_server.Database.Readback.{IsPackage}
use opentimestamps_server.Database.Merge.{
  IsWhole, IsPart-refl, IsHeld, IsGrown, IsGrown-trans, IsHeld-grown, get_timestamp-insert_meta,
}
use opentimestamps_server.Database.Puts.{IsPlain, write_batch-append, after_batch, IsBatch}
use opentimestamps_server.Database.Additions.{add_timestamp-Adds}

module _ {A O : Type 0} (p : Package A O) (laws : IsPackage p) (db : Dict Bytes) where
  -- What a batch over several timestamps does.
  record IsAddedAll (b c : Batch A O) (ts : List (Timestamp A O)) : Type 0 where
    batch : (IsBatch p laws db) c
    grown : IsGrown p ((after_batch p laws db) b) ((after_batch p laws db) c)
    held : All (IsHeld p ((after_batch p laws db) c)) ts

  All-IsHeld-grown :
      (d e : Dict Bytes) (ts : List (Timestamp A O))
      → IsGrown p d e
      → All (IsHeld p d) ts
      → All (IsHeld p e) ts
  All-IsHeld-grown d e [] g h = tt
  All-IsHeld-grown d e (t ∷ ts) g (h, hs) = (IsHeld-grown p d e t g h, All-IsHeld-grown d e ts g hs)

  add_all-IsAddedAll :
      (ts : List (Timestamp A O)) (b : Batch A O)
      → All IsPlain ts
      → (IsBatch p laws db) b
      → (c : Batch A O) × (add_all p db ts b ≡ some c) × IsAddedAll b c ts
  unfolding add_all
  add_all-IsAddedAll [] b plain h = (
    b,
    refl,
    record {
      batch = h;
      grown = λ m.
          IsPart-refl p (get_timestamp p ((after_batch p laws db) b) m)
            (get_timestamp p ((after_batch p laws db) b) m) refl;
      held = tt;
    },
  )
  add_all-IsAddedAll (t ∷ ts) b (plain, rest_plain) h =
      let (c, added, first) = add_timestamp-Adds p laws db t b plain h in
      let (d, added_rest, later) = add_all-IsAddedAll ts c rest_plain first.batch in
      (
        d,
        subst (λ o. elim o [ none ↦ none | some after ↦ add_all p db ts after ] ≡ some d)
            (sym added) added_rest,
        record {
          batch = later.batch;
          grown =
              IsGrown-trans p ((after_batch p laws db) b) ((after_batch p laws db) c)
                ((after_batch p laws db) d) first.grown later.grown;
          held = (
            IsHeld-grown p ((after_batch p laws db) c) ((after_batch p laws db) d) t later.grown
                first.held,
            later.held,
          );
        },
      )

abbrev empty_batch : {A O : Type 0} → Batch A O
empty_batch = record { puts = []; cache = [] }

empty-IsBatch :
    {A O : Type 0} (p : Package A O) (laws : IsPackage p) (db : Dict Bytes)
    → ((m : Bytes) → IsWhole p (get_timestamp p db m))
    → IsBatch p laws db empty_batch
unfolding lookup write_batch
empty-IsBatch p laws db readable = record {
  cached = λ m node e. cc;
  passed = λ m e. refl;
  whole = readable;
}

-- The put of the watermark changes no timestamp.
marked-get_timestamp :
    {A O : Type 0} (p : Package A O) (puts : List (Bytes × Bytes)) (value : Bytes) (db : Dict Bytes)
    (m : Bytes)
    → get_timestamp p (write_batch (puts ++ (meta_watermark, value) ∷ []) db) m
      ≡ get_timestamp p (write_batch puts db) m
marked-get_timestamp p puts value db m = rw (write_batch-append puts meta_watermark value db) (
    get_timestamp-insert_meta p meta_watermark value m (write_batch puts db)
      (unfold starts_with in refl))

-- A database of which every timestamp can be read.
abbrev pub IsReadable : {A O : Type 0} → Package A O → Dict Bytes → Type 0
IsReadable p db = (m : Bytes) → IsWhole p (get_timestamp p db m)

abbrev pub watermark_after : Option ℕ → Option ℕ → Option ℕ
watermark_after none old = old
watermark_after (some w) old = some w

-- A watermark that is given stands in the database, in decimal digits under its key.
abbrev pub IsStored : Option ℕ → Dict Bytes → Type 0
IsStored none db = Unit {0}
IsStored (some w) db = lookup meta_watermark db ≡ some (decimal w)

stored_last :
    (w : ℕ) (db : Dict Bytes)
    → lookup meta_watermark (insert meta_watermark (decimal w) db) ≡ some (decimal w)
stored_last w db = rw (lookup-insert meta_watermark meta_watermark (decimal w) db) same
  where
    same :
        (if bytes_eq meta_watermark meta_watermark
          then some (decimal w)
          else lookup meta_watermark db)
        ≡ some (decimal w)
    same = rw (bytes_eq_refl meta_watermark) refl

pub record IsMerged {A O : Type 0} (p : Package A O) (ts : List (Timestamp A O))
    (watermark : Option ℕ) (d e : LevelDbCalendar) : Type 0 where
  pub readable : IsReadable p e.db
  pub grown : IsGrown p d.db e.db
  pub held : All (IsHeld p e.db) ts
  pub marked : e.watermark ≡ watermark_after watermark d.watermark
  pub stored : IsStored watermark e.db

-- On a database that can be read, and for timestamps in which no message is a meta key or stands
-- below itself: the write raises nothing, leaves a database that can be read, loses no attestation
-- and no operation of any message, holds every attestation and every operation of the timestamps
-- and of all below them, and moves the watermark where one
-- is given, in the database too.
pub add_timestamps-IsMerged :
    {A O : Type 0} (p : Package A O) (ts : List (Timestamp A O)) (watermark : Option ℕ)
    (d : LevelDbCalendar)
    → IsPackage p
    → IsReadable p d.db
    → All IsPlain ts
    → (e : LevelDbCalendar) × (add_timestamps p ts watermark d ≡ some e)
      × IsMerged p ts watermark d e
unfolding add_timestamps write_batch
add_timestamps-IsMerged p ts watermark d laws readable plain =
    let (c, added, h) =
      add_all-IsAddedAll p laws d.db ts empty_batch plain (empty-IsBatch p laws d.db readable) in
    rw added (marked watermark c h)
  where
    marked :
        (watermark : Option ℕ) (c : Batch _ _)
        → IsAddedAll p laws d.db empty_batch c ts
        → (e : LevelDbCalendar) × (written watermark d (some c) ≡ some e)
          × IsMerged p ts watermark d e
    marked none c h = (
      record d { db = write_batch c.puts d.db },
      refl,
      record {
        readable = h.batch.whole;
        grown = h.grown;
        held = h.held;
        marked = refl;
        stored = tt;
      },
    )
    marked (some w) c h =
        let db = write_batch (c.puts ++ (meta_watermark, decimal w) ∷ []) d.db in
        let grows : IsGrown p (write_batch c.puts d.db) db = λ m.
          IsPart-refl p (get_timestamp p (write_batch c.puts d.db) m) (get_timestamp p db m)
            (marked-get_timestamp p c.puts (decimal w) d.db m) in
        (
          record d { db = db; watermark = some w },
          refl,
          record {
            readable = λ m. rw (marked-get_timestamp p c.puts (decimal w) d.db m) (h.batch.whole m);
            grown = IsGrown-trans p d.db (write_batch c.puts d.db) db h.grown grows;
            held = All-IsHeld-grown p laws d.db (write_batch c.puts d.db) db ts grows h.held;
            marked = refl;
            stored =
                ap (lookup meta_watermark)
                  (write_batch-append c.puts meta_watermark (decimal w) d.db)
                ∙ stored_last w (write_batch c.puts d.db);
          },
        )
