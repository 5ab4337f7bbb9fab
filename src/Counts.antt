-- ===== src/Counts.antt =====
-- otsserver/calendar.py: `RecordCounts` and `RecordCountsWriter`, the journal's record-count
-- sidecar, four big-endian bytes for each journal entry.
pub mod Slots
pub mod Torn
pub mod Readback
use opentimestamps_server.Prelude.{
  ℕ, zero, suc, ◌+◌, ◌*◌, ◌/◌, ◌%◌, ◌^◌, Bool, true, false, Option, none, some, [], ◌∷◌, Bytes,
  take, pread, pwrite, ltb, leb, ◌==◌, if◌then◌else◌,
}

abbrev pub record_size : ℕ
record_size = 4

abbrev pub known_zero : ℕ
known_zero = 0xFFFF_FFFF

abbrev pub known_zero_threshold : ℕ
known_zero_threshold = 0x8000_0000

-- `struct.pack('>L', count)` for a count below 2 ** 32.
unfoldable pub pack : ℕ → Bytes
pack count =
    (count / 2 ^ 24 % 256) ∷ (count / 2 ^ 16 % 256) ∷ (count / 2 ^ 8 % 256) ∷ (count % 256) ∷ []

-- What `get` makes of the bytes it read: a short read is unknown, as zero is, and a value at or
-- above the threshold is a known zero.
abbrev pub interpret : ℕ → Option ℕ
interpret count =
    if leb known_zero_threshold count then some 0 else if count == 0 then none else some count

unfoldable pub decode : Bytes → Option ℕ
decode (a ∷ b ∷ c ∷ d ∷ []) = interpret (a * 2 ^ 24 + b * 2 ^ 16 + c * 2 ^ 8 + d)
decode _ = none

unfoldable pub read_count : Bytes → ℕ → Option ℕ
read_count file idx = decode (pread file record_size (idx * record_size))

-- The reader's own state: is the file open, and has a failure been warned about.
pub record RecordCounts : Type 0 where
  pub is_open : Bool
  pub io_failed : Bool

-- What `os.open` does with the sidecar's path, asked only while it is not open.
pub data Opened : Type 0 where
  opens not_found open_fails : Opened

read_failure : RecordCounts → Option ℕ × RecordCounts
read_failure r = (none, record { is_open = false; io_failed = true })

read_open : Option Bytes → RecordCounts → ℕ → Option ℕ × RecordCounts
unfolding read_failure
read_open none r idx = read_failure r
read_open (some file) r idx = (read_count file idx, record { is_open = true; io_failed = false })

get_opening : Opened → Option Bytes → RecordCounts → ℕ → Option ℕ × RecordCounts
unfolding read_open
get_opening opens file r idx = read_open file r idx
get_opening not_found file r idx = (none, r)
get_opening open_fails file r idx = read_failure r

-- `RecordCounts.get`: `file` is `none` where the read raises an `OSError`.
unfoldable pub get : Opened → Option Bytes → RecordCounts → ℕ → Option ℕ × RecordCounts
unfolding get_opening
get opened file r idx = if r.is_open then read_open file r idx else get_opening opened file r idx

-- `RecordCountsWriter.put`; a count of 2 ** 32 or more is refused by `struct.pack`.
unfoldable pub put : Bytes → ℕ → ℕ → Bytes
put file idx count =
    if ltb count (2 ^ 32) then pwrite file (pack count) (idx * record_size) else file

-- A `put` that stops once `k` bytes have reached the file.
unfoldable pub put_torn : ℕ → Bytes → ℕ → ℕ → Bytes
put_torn zero file idx count = file
put_torn (suc k) file idx count =
    if ltb count (2 ^ 32) then pwrite file (take (suc k) (pack count)) (idx * record_size) else file

-- What a count adds to a receipt: an unknown one is summed as 0.
abbrev pub summed : Option ℕ → ℕ
summed none = 0
summed (some n) = n
