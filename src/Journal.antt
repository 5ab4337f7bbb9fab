-- ===== src/Journal.antt =====
-- otsserver/calendar.py: `Journal` and `JournalWriter`, the append-only file of commitments.
-- A file is its bytes; a write that the disk refuses leaves the bytes that reached the file.
pub mod Entries
pub mod Writes
pub mod Recovery
use opentimestamps_server.Prelude.{
  ℕ, ◌+◌, ◌-◌, ◌*◌, ◌/◌, ◌%◌, Bool, true, false, not, Option, none, some, ◌++◌, Bytes, bytes_eq,
  length, take, drop, replicate, pread, append_torn, ◌==◌, if◌then◌else◌,
}
use opentimestamps_server.Counts
use opentimestamps_server.Counts.{known_zero}

abbrev pub hmac_size : ℕ
hmac_size = 8

-- `Journal.COMMITMENT_SIZE`: the time prefix, a digest and the MAC.
abbrev pub commitment_size : ℕ
commitment_size = 4 + 32 + hmac_size

-- `commitment[-HMAC_SIZE:] == b'\x00'*HMAC_SIZE` on a commitment of full size.
abbrev pub null_hmac : Bytes → Bool
null_hmac c = bytes_eq (drop (commitment_size - hmac_size) c) (replicate hmac_size 0)

-- Strip off the HMAC if not present.
unfoldable pub strip : Bytes → Bytes
strip c = if null_hmac c then take (commitment_size - hmac_size) c else c

-- `Journal.__getitem__`; `none` is the `KeyError`.
unfoldable pub get_item : Bytes → ℕ → Option Bytes
get_item file idx =
    let c = pread file commitment_size (idx * commitment_size) in
    if length c == commitment_size then some (strip c) else none

-- `JournalWriter.__init__` on the journal file: pad a partial last write.
unfoldable pub open_append : Bytes → Bytes
open_append file =
    if not (length file % commitment_size == 0)
    then file ++ replicate (commitment_size - length file % commitment_size) 0
    else file

-- The writer's two files; `none` for the sidecar is anchor receipts switched off.
pub record JournalWriter : Type 0 where
  pub file : Bytes
  pub record_counts : Option Bytes

-- How a call of `submit` ends: the exceptions that it can raise are told apart.
pub data Submitted : Type 0 where
  returned value_error assertion_error os_error : Submitted

-- What the disk does with a write and its fsync: all of it lands, or the call raises once the
-- first bytes have reached the file.
pub data Disk : Type 0 where
  synced : Disk
  fails_after : ℕ → Disk

-- `commitment` at its full size; `none` is the refused length.
unfoldable pub pad : Bytes → Option Bytes
pad c =
    if length c == commitment_size - hmac_size
    then some (c ++ replicate hmac_size 0)
    else if length c == commitment_size
    then some c
    else none

-- The sidecar's part of `submit`; `records or KNOWN_ZERO`, and every exception is dropped.
unfoldable pub put_records : Disk → Option Bytes → ℕ → Option ℕ → Option Bytes
put_records disk none idx records = none
put_records disk (some side) idx none = some side
put_records synced (some side) idx (some n) =
    some (Counts.put side idx (if n == 0 then known_zero else n))
put_records (fails_after k) (some side) idx (some n) =
    some (Counts.put_torn k side idx (if n == 0 then known_zero else n))

write_entry : Disk → Disk → JournalWriter → Bytes → Option ℕ → Submitted × JournalWriter
write_entry synced side w c records = (
  returned,
  record {
    file = w.file ++ c;
    record_counts = put_records side w.record_counts (length w.file / commitment_size) records;
  },
)
write_entry (fails_after n) side w c records =
    (os_error, record w { file = append_torn w.file c n })

unfoldable pub submit_padded :
    Disk → Disk → JournalWriter → Option Bytes → Option ℕ → Submitted × JournalWriter
unfolding write_entry
submit_padded disk side w none records = (value_error, w)
submit_padded disk side w (some c) records =
    if length w.file % commitment_size == 0
    then write_entry disk side w c records
    else (assertion_error, w)

-- `JournalWriter.submit`: `disk` is the journal's write and fsync, `side` the sidecar's.
unfoldable pub submit : Disk → Disk → JournalWriter → Bytes → Option ℕ → Submitted × JournalWriter
unfolding submit_padded
submit disk side w commitment records = submit_padded disk side w (pad commitment) records
