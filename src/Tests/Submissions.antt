-- ===== src/Tests/Submissions.antt =====
-- A root submitted to the journal, bound to a known block.
use opentimestamps_server.Prelude.{
  ℕ, ◌≡◌, refl, some, [], ◌∷◌, ◌++◌, Bytes, length, take, replicate, length-append, length-take,
  length-replicate, codes, arith,
}
use opentimestamps_server.Journal.{synced}
use opentimestamps_server.Journal.Writes.{IsWhole, IsOneMore}
use opentimestamps_server.Stamper.{KnownBlock}
use opentimestamps_server.Submission.{submit}
use opentimestamps_server.Submission.Length.{IsBound, time_bytes, submit_appends_commitment}
use opentimestamps_server.Keys.{derive_key_for_idx}
use opentimestamps_server.Tests.Files.{two_entries, writer}

-- A function of 32 bytes in the place of the hash.
abbrev short_hash : Bytes → Bytes
short_hash m = take 32 (m ++ replicate 32 5)

short_hash_sizes : (m : Bytes) → length (short_hash m) ≡ 32
short_hash_sizes m = omega (
  arith,
  length-take 32 (m ++ replicate 32 5),
  length-append m (replicate 32 5),
  length-replicate {A = ℕ} 32 5,
)

abbrev newest : KnownBlock
newest = record { height = 800; hash = replicate 32 9 }

writer-IsWhole : IsWhole two_entries
writer-IsWhole = refl

submit_appends_commitment_example :
    (bound : Bytes) × IsBound short_hash short_hash_sizes (newest ∷ []) (replicate 32 1) bound
    × IsOneMore writer
        ((time_bytes 1700000000 ++ bound)
          ++ take 8 (
              short_hash (
                (time_bytes 1700000000 ++ bound)
                ++ derive_key_for_idx short_hash (codes "key") 1700000000 32)))
        (submit short_hash
          (codes "key")
          (newest ∷ [])
          1700000000
          synced
          synced
          writer
          (replicate 32 1)
          (some 3))
submit_appends_commitment_example =
    submit_appends_commitment short_hash short_hash_sizes (codes "key") (newest ∷ []) 1700000000
      synced writer (replicate 32 1) (some 3) (omega arith) refl writer-IsWhole
