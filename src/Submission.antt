-- ===== src/Submission.antt =====
-- otsserver/calendar.py: `Calendar.submit`, which binds a root to the newest block, to the time and
-- to the calendar's key, and appends it to the journal. SHA-256 is a parameter.
pub mod Length
use mathlib.Core.List.{reverse}
use opentimestamps_server.Prelude.{
  ℕ, Option, none, some, List, [], ◌∷◌, ◌++◌, Bytes, length, take, ◌==◌, if◌then◌else◌,
}
use opentimestamps_server.Counts.{pack}
use opentimestamps_server.Journal
use opentimestamps_server.Journal.{JournalWriter, Disk, hmac_size}
use opentimestamps_server.Keys.{derive_key_for_idx}
use opentimestamps_server.Stamper.{KnownBlock}

-- `best_block_hash`, from the stamper's known blocks, newest first: the hash in display order.
unfoldable pub best_block_hash : List KnownBlock → Option Bytes
best_block_hash [] = none
best_block_hash (b ∷ bs) = if length b.hash == 0 then none else some (reverse b.hash)

-- The not-before bound: `OpAppend(block_hash)` and `OpSHA256()` where a block is known.
abbrev pub not_before : (Bytes → Bytes) → Option Bytes → Bytes → Bytes
not_before sha256 none msg = msg
not_before sha256 (some h) msg = sha256 (msg ++ h)

-- `OpPrepend(serialized_idx)` for a time below 2 ** 32.
abbrev pub timed : ℕ → Bytes → Bytes
timed idx msg = pack idx ++ msg

abbrev pub macced : (Bytes → Bytes) → Bytes → ℕ → Bytes → Bytes
macced sha256 hmac_key idx c =
    c ++ take hmac_size (sha256 (c ++ derive_key_for_idx sha256 hmac_key idx 32))

-- The message of `macced_commitment`.
unfoldable pub commitment_of : (Bytes → Bytes) → Bytes → List KnownBlock → ℕ → Bytes → Bytes
unfolding best_block_hash
commitment_of sha256 hmac_key blocks idx msg =
    macced sha256 hmac_key idx (timed idx (not_before sha256 (best_block_hash blocks) msg))

-- `submit`: `idx` is `int(time.time())`, and `blocks` are the stamper's known ones.
unfoldable pub submit :
    (Bytes → Bytes)
    → Bytes
    → List KnownBlock
    → ℕ
    → Disk
    → Disk
    → JournalWriter
    → Bytes
    → Option ℕ
    → Journal.Submitted × JournalWriter
unfolding commitment_of
submit sha256 hmac_key blocks idx disk side w msg records =
    Journal.submit disk side w (commitment_of sha256 hmac_key blocks idx msg) records
