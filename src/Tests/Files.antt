-- ===== src/Tests/Files.antt =====
-- The journal, its sidecar and the checkpoint on small files.
use opentimestamps_server.Prelude.{
  ◌≤◌, ◌≡◌, ◌-◌, refl, true, false, some, [], ◌∷◌, ◌++◌, Bytes, codes, length, take, replicate,
  ◌==◌, if◌then◌else◌, arith,
}
use mathlib.Core.Option
use opentimestamps_server.Prelude.{get_elem?}
use opentimestamps_server.Journal.{
  JournalWriter, synced, fails_after, os_error, pad, strip, get_item, open_append, commitment_size,
  null_hmac, submit,
}
use opentimestamps_server.Journal.Entries.{entries, get_item-entries}
use opentimestamps_server.Journal.Writes.{IsWhole, IsSubmitted, submit_appends, get_item-submit}
use opentimestamps_server.Journal.Recovery.{reopen_after_failure}
use opentimestamps_server.Counts.{put, put_torn, read_count, interpret, summed}
use opentimestamps_server.Counts.Torn.{IsUnwritten, torn_put_undercounts}
use opentimestamps_server.Counts.Readback.{IsReadBack, read_count-put}
use opentimestamps_server.Checkpoint.{
  missing, checkpoint, read_checkpoint, write_checkpoint, after_rename, is_hex, all_chars,
}
use opentimestamps_server.Checkpoint.RoundTrip.{read_checkpoint-write_checkpoint}
use opentimestamps_server.Checkpoint.Refusals.{IsWellFormed, read_checkpoint-IsWellFormed}

abbrev pub digest : Bytes
digest = replicate 36 7

abbrev pub padded : Bytes
padded = digest ++ replicate 8 0

abbrev pub two_entries : Bytes
two_entries = replicate 44 1 ++ replicate 44 2

abbrev pub writer : JournalWriter
writer = record { file = two_entries; record_counts = some [] }

two_entries-IsWhole : IsWhole two_entries
two_entries-IsWhole = refl

pad_digest : pad digest ≡ some padded
unfolding pad
pad_digest = refl

reopen_after_failure_example :
    let (r, w') = submit (fails_after 10) synced writer digest (some 3) in
    (r ≡ os_error)
    × (entries (open_append w'.file) ≡ (
        if 10 == 0
        then entries two_entries
        else entries two_entries ++ (take 10 padded ++ replicate (commitment_size - 10) 0) ∷ []))
    × IsWhole (open_append w'.file)
    × (w'.record_counts ≡ some [])
reopen_after_failure_example =
    reopen_after_failure synced writer digest padded (some 3) 10 two_entries-IsWhole pad_digest
      (omega arith)

submit_appends_example : IsSubmitted writer digest (submit synced synced writer digest (some 3))
submit_appends_example = submit_appends synced writer digest (some 3) two_entries-IsWhole

digest_short : length digest ≡ commitment_size → null_hmac digest ≡ false
digest_short e = absurd (omega arith)

get_item-submit_example :
    get_item (submit synced synced writer digest (some 3)).1.file 2
    ≡ (if 2 == length (entries two_entries) then some digest else get_item two_entries 2)
get_item-submit_example =
    get_item-submit synced writer digest padded (some 3) 2 two_entries-IsWhole pad_digest
      digest_short

get_item-entries_example :
    get_item two_entries 1 ≡ Option.map strip (get_elem? (entries two_entries) 1)
get_item-entries_example = get_item-entries two_entries 1

-- Two slots, the second not yet written.
abbrev pub counts : Bytes
counts = 0 ∷ 0 ∷ 0 ∷ 5 ∷ 0 ∷ 0 ∷ 0 ∷ 0 ∷ []

counts-IsUnwritten : IsUnwritten counts 1
counts-IsUnwritten = (4, refl)

torn_put_undercounts_example :
    let torn = put_torn 3 counts 1 700 in
    (summed (read_count torn 1) ≤ summed (interpret 700))
    × (summed (read_count (put torn 0 9) 1) ≤ summed (interpret 700))
torn_put_undercounts_example =
    torn_put_undercounts counts 1 700 3 0 9 counts-IsUnwritten (omega arith) (omega arith)
      (omega arith)

read_count-put_example : IsReadBack counts 1 700 (read_count (put counts 1 700))
read_count-put_example = read_count-put counts 1 700 refl (omega arith)

abbrev pub generation : Bytes
generation = codes "0123456789abcdef0123456789abcdef"

pub generation-hex : all_chars is_hex generation ≡ true
unfolding all_chars
generation-hex = refl

read_checkpoint-write_checkpoint_example :
    read_checkpoint (write_checkpoint after_rename missing 41 generation)
    ≡ checkpoint (record { idx = 41; generation = some generation })
read_checkpoint-write_checkpoint_example =
    read_checkpoint-write_checkpoint after_rename missing 41 generation (omega arith) refl
      generation-hex

read_checkpoint-IsWellFormed_example :
    IsWellFormed (record { idx = 41; generation = some generation })
read_checkpoint-IsWellFormed_example =
    read_checkpoint-IsWellFormed (write_checkpoint after_rename missing 41 generation)
      (record { idx = 41; generation = some generation })
      (read_checkpoint-write_checkpoint after_rename missing 41 generation (omega arith) refl
        generation-hex)
