-- ===== src/Tests/Starts.antt =====
-- The starts of a calendar on small files, and its database.
use opentimestamps_server.Prelude.{ℕ, ◌≤◌, ◌≡◌, refl, none, some, [], ◌∷◌, codes, replicate, arith}
use opentimestamps_server.Prelude.{bytes_eq, starts_with}
use opentimestamps_server.Prelude.Dict.{lookup}
use mathlib.Core.Option.{some-injective}
use opentimestamps_server.Journal.{synced, submit, get_item, strip}
use opentimestamps_server.Checkpoint.{missing, write_checkpoint, after_rename}
use opentimestamps_server.Checkpoint.RoundTrip.{read_checkpoint-write_checkpoint}
use opentimestamps_server.Database.{LevelDbCalendar, adopt_generation, open_database, contains}
use opentimestamps_server.Database.Meta.{open_database-adopt_generation, contains-adopt_generation}
use opentimestamps_server.Startup.{Storage, passes, verify_storage_generation, check_counts}
use opentimestamps_server.Startup.Accepts.{IsTrusted, IsHeld, Describes}
use opentimestamps_server.Startup.Trust.{
  verify_storage_generation_sound, verify_storage_generation_complete, start_after_write_checkpoint,
}
use opentimestamps_server.Startup.Sidecar.{check_counts-submit}
use opentimestamps_server.Tests.Files.{two_entries, writer, digest, generation, generation-hex}

abbrev pub database : LevelDbCalendar
database = record {
  db = (replicate 44 1, 1 ∷ []) ∷ (replicate 44 2, 1 ∷ []) ∷ [];
  generation = some generation;
  watermark = some 2;
}

abbrev pub storage : Storage
storage = record {
  journal = some two_entries;
  counts = none;
  known_good = write_checkpoint after_rename missing 2 generation;
  database = database;
}

holds_first : IsHeld (some two_entries) database 0
unfolding get_item strip contains bytes_eq starts_with lookup
holds_first = (replicate 44 1, refl, refl)

holds_second : IsHeld (some two_entries) database 1
unfolding get_item strip contains bytes_eq starts_with lookup
holds_second = (replicate 44 2, refl, refl)

two_described : Describes (some two_entries) database 2
two_described = (omega arith, holds_second, holds_first)

committed : (w : ℕ) → database.watermark ≡ some w → 2 ≤ w
committed w e = let same : 2 ≡ w = some-injective 2 w e in omega arith

storage-IsTrusted : IsTrusted storage 2
storage-IsTrusted = record {
  named = generation;
  written =
      read_checkpoint-write_checkpoint after_rename missing 2 generation (omega arith) refl
        generation-hex;
  lineage = refl;
  committed = committed;
  described = two_described;
}

verify_storage_generation_complete_example :
    verify_storage_generation (codes "ff") storage ≡ passes (some 2, database)
verify_storage_generation_complete_example =
    verify_storage_generation_complete (codes "ff") storage 2 storage-IsTrusted

verify_storage_generation_sound_example : IsTrusted storage 2 × (database ≡ storage.database)
verify_storage_generation_sound_example =
    verify_storage_generation_sound (codes "ff") storage 2 database
      (verify_storage_generation_complete (codes "ff") storage 2 storage-IsTrusted)

start_after_write_checkpoint_example :
    verify_storage_generation (codes "ff") storage ≡ passes (some 2, database)
start_after_write_checkpoint_example =
    start_after_write_checkpoint (codes "ff") storage missing 2 generation (omega arith) refl
      generation-hex refl refl committed two_described

counts_pass : check_counts (some []) (some two_entries) ≡ passes tt
unfolding check_counts
counts_pass = refl

check_counts-submit_example :
    let (r, w') = submit synced synced writer digest (some 3) in
    check_counts w'.record_counts (some w'.file) ≡ passes tt
check_counts-submit_example = check_counts-submit synced synced writer digest (some 3) counts_pass

open_database-adopt_generation_example :
    open_database (codes "ff") (adopt_generation generation 7 database).db
    ≡ some (adopt_generation generation 7 database)
open_database-adopt_generation_example =
    open_database-adopt_generation generation (codes "ff") 7 database (omega arith)

contains-adopt_generation_example :
    contains (adopt_generation generation 7 database) digest ≡ contains database digest
contains-adopt_generation_example = contains-adopt_generation generation digest 7 database
