-- ===== src/Startup/Trust.antt =====
-- otsserver/calendar.py: `Calendar.verify_storage_generation` and the checkpoints that it trusts.
use mathlib.Core.Bool.{not}
use mathlib.Core.Option.{some-injective}
use opentimestamps_server.Prelude.{
  ℕ, ◌≤◌, ◌<◌, ◌^◌, ◌≡◌, refl, ap, ◌∙◌, sym, subst, true, Option, none, some, Bytes, bytes_eq,
  bytes_eq_iff, bytes_eq_refl, length, arith,
}
use opentimestamps_server.Checkpoint.{
  OnDisk, Checkpoint, Parsed, Refusal, absent, refused, checkpoint, read_checkpoint,
  write_checkpoint, after_rename, all_chars, is_hex,
}
use opentimestamps_server.Checkpoint.RoundTrip.{read_checkpoint-write_checkpoint}
use opentimestamps_server.Database.{LevelDbCalendar}
use opentimestamps_server.Startup.{
  Storage, Checked, passes, stops, ◌>>◌, refuse_if, check_journal, verify_parsed,
  verify_storage_generation, same_generation, within_watermark, check_generation, other_generation,
  above_watermark,
}
use opentimestamps_server.Startup.Accepts.{
  Describes, IsTrusted, >>-sound, refuse_if_sound, check_journal_sound, check_journal_complete,
  false-ltb,
}

same_generation_sound :
    (g : Bytes) (o : Option Bytes) → same_generation g o ≡ passes tt → o ≡ some g
same_generation_sound g none h = cc
same_generation_sound g (some h) e = ap some (
    sym (
      (bytes_eq_iff g h).0 (ground (arith, refuse_if_sound (not (bytes_eq g h)) other_generation))))

within_watermark_sound :
    (idx : ℕ) (o : Option ℕ) → within_watermark idx o ≡ passes tt → (w : ℕ) → o ≡ some w → idx ≤ w
within_watermark_sound idx none h w e = cc
within_watermark_sound idx (some v) h w e = ground arith

-- What the three checks have found, for the generation that the checkpoint names.
IsConsistent : Storage → ℕ → Option Bytes → Type 0
IsConsistent s idx named =
    (g : Bytes) × (named ≡ some g)
    × (s.database.generation ≡ some g)
    × ((w : ℕ) → s.database.watermark ≡ some w → idx ≤ w)
    × Describes s.journal s.database idx

check_generation_sound :
    (s : Storage) (idx : ℕ) (named : Option Bytes)
    → check_generation s idx named ≡ passes tt
    → IsConsistent s idx named
unfolding IsConsistent
check_generation_sound s idx none h = cc
check_generation_sound s idx (some g) h =
    let journal = check_journal s.journal s.database idx in
    let watermark = within_watermark idx s.database.watermark in
    let outer = >>-sound (same_generation g s.database.generation) (watermark >> journal) h in
    let inner = >>-sound watermark journal outer.1 in
    (
      g,
      refl,
      same_generation_sound g s.database.generation outer.0,
      within_watermark_sound idx s.database.watermark inner.0,
      check_journal_sound s.journal s.database idx inner.1,
    )

then_passes :
    {A : Type 0} (m : Checked (Unit {0})) (v w : A)
    → (m >> passes v) ≡ passes w
    → (m ≡ passes tt) × (v ≡ w)
then_passes (passes u) v w h = (refl, cc)
then_passes (stops r) v w h = cc

verify_parsed_sound :
    (fresh : Bytes) (s : Storage) (p : Parsed) (idx : ℕ) (d : LevelDbCalendar)
    → verify_parsed fresh s p ≡ passes (some idx, d)
    → (c : Checkpoint) × (p ≡ checkpoint c)
      × (check_generation s c.idx c.generation ≡ passes tt)
      × (c.idx ≡ idx)
      × (s.database ≡ d)
verify_parsed_sound fresh s absent idx d h = cc
verify_parsed_sound fresh s (refused r) idx d h = refused_stops r h
  where
    refused_stops :
        (x : Refusal)
        → verify_parsed fresh s (refused x) ≡ passes (some idx, d)
        → (c : Checkpoint) × (refused x ≡ checkpoint c)
          × (check_generation s c.idx c.generation ≡ passes tt)
          × (c.idx ≡ idx)
          × (s.database ≡ d)
    refused_stops Refusal.unreadable e = cc
    refused_stops Refusal.not_ascii e = cc
    refused_stops _ e = cc
verify_parsed_sound fresh s (checkpoint c) idx d h =
    let parts =
      then_passes (check_generation s c.idx c.generation) (some c.idx, s.database) (some idx, d)
        h in
    (
      c,
      refl,
      parts.0,
      some-injective c.idx idx (ap (λ (v : Option ℕ × LevelDbCalendar). v.0) parts.1),
      ap (λ (v : Option ℕ × LevelDbCalendar). v.1) parts.1,
    )

trusted :
    (s : Storage) (c : Checkpoint) (idx : ℕ)
    → read_checkpoint s.known_good ≡ checkpoint c
    → c.idx ≡ idx
    → IsConsistent s c.idx c.generation
    → IsTrusted s idx
unfolding IsConsistent
trusted s c idx written e (g, names, lineage, committed, described) =
    subst (IsTrusted s) e (record {
      named = g;
      written = written ∙ ap (λ o. checkpoint (record { idx = c.idx; generation = o })) names;
      lineage = lineage;
      committed = committed;
      described = described;
    })

-- A start that goes on from a checkpoint has established that the checkpoint on file names this
-- database's generation, lies at or below its committed watermark, that the journal holds that
-- many entries, and that the last entry below it and entry 0 are in the database; and it changes
-- nothing in the database.
pub verify_storage_generation_sound :
    (fresh : Bytes) (s : Storage) (idx : ℕ) (d : LevelDbCalendar)
    → verify_storage_generation fresh s ≡ passes (some idx, d)
    → IsTrusted s idx × (d ≡ s.database)
unfolding verify_storage_generation
verify_storage_generation_sound fresh s idx d h =
    let (c, written, checks, same, db) =
      verify_parsed_sound fresh s (read_checkpoint s.known_good) idx d h in
    (trusted s c idx written same (check_generation_sound s c.idx c.generation checks), sym db)

within_watermark_complete :
    (idx : ℕ) (o : Option ℕ) → ((w : ℕ) → o ≡ some w → idx ≤ w) → within_watermark idx o ≡ passes tt
within_watermark_complete idx none h = refl
within_watermark_complete idx (some w) h =
    ap (λ b. refuse_if b above_watermark) (false-ltb w idx (h w refl))

-- A checkpoint with a generation is accepted, and the database left as it is, wherever that is the
-- database's generation, the index is at or below its watermark, the journal holds that many
-- entries, and the last entry below the index and entry 0 are in the database.
pub verify_storage_generation_complete :
    (fresh : Bytes) (s : Storage) (idx : ℕ)
    → IsTrusted s idx
    → verify_storage_generation fresh s ≡ passes (some idx, s.database)
unfolding verify_storage_generation
verify_storage_generation_complete fresh s idx t =
    ap (verify_parsed fresh s) t.written
    ∙ ap (λ (m : Checked (Unit {0})). m >> passes (some idx, s.database)) (checks t)
  where
    checks : IsTrusted s idx → check_generation s idx (some t.named) ≡ passes tt
    checks u =
        ap
          (λ o.
            same_generation t.named o
            >> (within_watermark idx s.database.watermark
                >> check_journal s.journal s.database idx))
          t.lineage
        ∙ ap
            (λ b.
              refuse_if (not b) other_generation
              >> (within_watermark idx s.database.watermark
                  >> check_journal s.journal s.database idx))
            (bytes_eq_refl t.named)
        ∙ ap (λ (m : Checked (Unit {0})). m >> check_journal s.journal s.database idx)
            (within_watermark_complete idx s.database.watermark t.committed)
        ∙ check_journal_complete s.journal s.database idx t.described

-- The checkpoint that `write_checkpoint` leaves after a save is accepted by the next start on the
-- same files: an index below 10 ^ 20 and at or below the watermark, written with the database's
-- generation of 32 lower-case hex characters, over a journal that it describes.
pub start_after_write_checkpoint :
    (fresh : Bytes) (s : Storage) (old : OnDisk) (idx : ℕ) (g : Bytes)
    → idx < 10 ^ 20
    → length g ≡ 32
    → all_chars is_hex g ≡ true
    → s.known_good ≡ write_checkpoint after_rename old idx g
    → s.database.generation ≡ some g
    → ((w : ℕ) → s.database.watermark ≡ some w → idx ≤ w)
    → Describes s.journal s.database idx
    → verify_storage_generation fresh s ≡ passes (some idx, s.database)
start_after_write_checkpoint fresh s old idx g fits len hex file lineage committed described =
    verify_storage_generation_complete fresh s idx (record {
      named = g;
      written =
          ap read_checkpoint file
          ∙ read_checkpoint-write_checkpoint after_rename old idx g fits len hex;
      lineage = lineage;
      committed = committed;
      described = described;
    })
