-- ===== src/Startup.antt =====
-- otsserver/calendar.py: the checks of `Calendar.__init__` on the files it finds, before the
-- journal is opened for appending: `__check_counts`, `__check_journal` and
-- `verify_storage_generation`.
pub mod Accepts
pub mod Trust
pub mod Sidecar
use mathlib.Core.Bool.{not}
use opentimestamps_server.Prelude.{
  ℕ, zero, suc, ◌+◌, ◌-◌, ◌*◌, ◌/◌, Bool, true, false, Option, none, some, [], ◌∷◌, List, Bytes,
  bytes_eq, length, ltb, ◌==◌, if◌then◌else◌,
}
use opentimestamps_server.Journal.{commitment_size, get_item}
use opentimestamps_server.Counts.{record_size}
use opentimestamps_server.Checkpoint.{
  OnDisk, Checkpoint, Parsed, Refusal, absent, refused, checkpoint, read_checkpoint,
}
use opentimestamps_server.Database.{LevelDbCalendar, adopt_generation, contains}

-- The calendar directory's files that the checks read; `none` is a missing file.
pub record Storage : Type 0 where
  pub journal : Option Bytes
  pub counts : Option Bytes
  pub known_good : OnDisk
  pub database : LevelDbCalendar

-- Why the service stops: one constructor for each call of `__refuse`.
pub data Reason : Type 0 where
  counts_ahead malformed unreadable index_alone no_generation other_generation : Reason
  above_watermark journal_short no_entry entry_not_held : Reason

-- A check ends with its value, or the process stops.
pub data Checked {ℓ} (A : Type ℓ) : Type ℓ where
  passes : A → Checked A
  stops : Reason → Checked A

infixl 5 ◌>>=◌ ◌>>◌
abbrev pub ◌>>=◌ {ℓ κ} : {A : Type ℓ} {B : Type κ} → Checked A → (A → Checked B) → Checked B
passes a >>= f = f a
stops r >>= f = stops r

abbrev pub ◌>>◌ {ℓ} : {B : Type ℓ} → Checked (Unit {0}) → Checked B → Checked B
m >> k = m >>= λ _. k

-- `if bad: self.__refuse(r)`
abbrev pub refuse_if : Bool → Reason → Checked (Unit {0})
refuse_if true r = stops r
refuse_if false r = passes tt

-- `os.path.getsize(...) // COMMITMENT_SIZE`, 0 for a missing journal.
abbrev pub entries_of : Option Bytes → ℕ
entries_of none = 0
entries_of (some file) = length file / commitment_size

-- `-(-size // RECORD_SIZE)`: the size in records, rounded up.
abbrev pub counted_of : Bytes → ℕ
counted_of side = (length side + (record_size - 1)) / record_size

-- `__check_counts`
unfoldable pub check_counts : Option Bytes → Option Bytes → Checked (Unit {0})
check_counts none journal = passes tt
check_counts (some side) journal =
    refuse_if (ltb (entries_of journal) (counted_of side)) counts_ahead

abbrev pub file_of : Option Bytes → Bytes
file_of none = []
file_of (some file) = file

abbrev probe_entry : LevelDbCalendar → Option Bytes → Checked (Unit {0})
probe_entry database none = stops no_entry
probe_entry database (some entry) = refuse_if (not (contains database entry)) entry_not_held

-- One round of the probes: the entry is there, and the database holds it.
unfoldable pub probe : Option Bytes → LevelDbCalendar → ℕ → Checked (Unit {0})
probe journal database i = probe_entry database (get_item (file_of journal) i)

-- `__check_journal`, the probes of `idx - 1` and 0 in that order.
unfoldable pub check_journal : Option Bytes → LevelDbCalendar → ℕ → Checked (Unit {0})
unfolding probe
check_journal journal database zero = passes tt
check_journal journal database (suc below) = do
  refuse_if (ltb (entries_of journal) (suc below)) journal_short
  probe journal database below
  probe journal database 0

abbrev same_generation : Bytes → Option Bytes → Checked (Unit {0})
same_generation g none = stops no_generation
same_generation g (some h) = refuse_if (not (bytes_eq g h)) other_generation

-- `idx > self.db.watermark`; a database with a generation has a watermark, and without one the
-- generation's check has stopped the service before.
abbrev within_watermark : ℕ → Option ℕ → Checked (Unit {0})
within_watermark idx none = passes tt
within_watermark idx (some w) = refuse_if (ltb w idx) above_watermark

abbrev check_generation : Storage → ℕ → Option Bytes → Checked (Unit {0})
check_generation s idx none = stops index_alone
check_generation s idx (some g) = do
  same_generation g s.database.generation
  within_watermark idx s.database.watermark
  check_journal s.journal s.database idx

-- The start index of the scan, if there is a checkpoint, and the database, which has a generation
-- from here on; `fresh` is the random token of a new one.
abbrev adopt : Bytes → LevelDbCalendar → Option Bytes → LevelDbCalendar
adopt fresh d none = adopt_generation fresh 0 d
adopt fresh d (some g) = d

abbrev verify_parsed : Bytes → Storage → Parsed → Checked (Option ℕ × LevelDbCalendar)
verify_parsed fresh s absent = passes (none, adopt fresh s.database s.database.generation)
verify_parsed fresh s (refused Refusal.unreadable) = stops unreadable
verify_parsed fresh s (refused r) = stops malformed
verify_parsed fresh s (checkpoint c) = do
  check_generation s c.idx c.generation
  passes (some c.idx, s.database)

-- `verify_storage_generation`
unfoldable pub verify_storage_generation : Bytes → Storage → Checked (Option ℕ × LevelDbCalendar)
unfolding check_journal
verify_storage_generation fresh s = verify_parsed fresh s (read_checkpoint s.known_good)

-- The part of `Calendar.__init__` between the keys and the opening of the journal.
unfoldable pub check_storage : Bytes → Storage → Checked (Option ℕ × LevelDbCalendar)
unfolding check_counts verify_storage_generation
check_storage fresh s = do check_counts s.counts s.journal; verify_storage_generation fresh s
