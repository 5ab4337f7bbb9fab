-- ===== src/Startup/Accepts.antt =====
-- otsserver/calendar.py: what a start that is not refused has checked.
use opentimestamps_server.Prelude.{
  ℕ, zero, suc, ◌≤◌, ◌≡◌, refl, Bool, true, false, Option, none, some, Bytes, ltb, arith,
}
use opentimestamps_server.Journal.{get_item}
use opentimestamps_server.Checkpoint.{checkpoint, read_checkpoint}
use opentimestamps_server.Database.{LevelDbCalendar, contains}
use opentimestamps_server.Startup.{
  Storage, Checked, passes, stops, ◌>>◌, refuse_if, entries_of, file_of, probe, probe_entry, Reason,
  journal_short, check_journal,
}

pub ltb-false : (a b : ℕ) → ltb a b ≡ false → b ≤ a
ltb-false a b h = ground arith

pub false-ltb : (a b : ℕ) → b ≤ a → ltb a b ≡ false
false-ltb a b h = ground arith

-- The journal has entry `i`, and the database holds it.
abbrev pub IsHeld : Option Bytes → LevelDbCalendar → ℕ → Type 0
IsHeld journal d i =
    (entry : Bytes) × (get_item (file_of journal) i ≡ some entry) × (contains d entry ≡ true)

probe_entry_sound :
    (d : LevelDbCalendar) (o : Option Bytes)
    → probe_entry d o ≡ passes tt
    → (entry : Bytes) × (o ≡ some entry) × (contains d entry ≡ true)
probe_entry_sound d none h = cc
probe_entry_sound d (some entry) h = (entry, refl, ground arith)

probe_sound :
    (journal : Option Bytes) (d : LevelDbCalendar) (i : ℕ)
    → probe journal d i ≡ passes tt
    → IsHeld journal d i
unfolding probe
probe_sound journal d i h = probe_entry_sound d (get_item (file_of journal) i) h

probe_complete :
    (journal : Option Bytes) (d : LevelDbCalendar) (i : ℕ)
    → IsHeld journal d i
    → probe journal d i ≡ passes tt
unfolding probe
probe_complete journal d i (entry, e, held) = rw e (rw held refl)

-- What `__check_journal` asks of a checkpoint at `idx`.
abbrev pub Describes : Option Bytes → LevelDbCalendar → ℕ → Type 0
Describes journal d zero = Unit {0}
Describes journal d (suc below) =
    (suc below ≤ entries_of journal) × IsHeld journal d below × IsHeld journal d 0

pub >>-sound : (m k : Checked (Unit {0})) → (m >> k) ≡ passes tt → (m ≡ passes tt) × (k ≡ passes tt)
>>-sound (passes u) k h = (refl, h)
>>-sound (stops r) k h = cc

pub refuse_if_sound : (b : Bool) (r : Reason) → refuse_if b r ≡ passes tt → b ≡ false
refuse_if_sound true r h = cc
refuse_if_sound false r h = refl

pub check_journal_sound :
    (journal : Option Bytes) (d : LevelDbCalendar) (idx : ℕ)
    → check_journal journal d idx ≡ passes tt
    → Describes journal d idx
unfolding check_journal
check_journal_sound journal d zero h = tt
check_journal_sound journal d (suc below) h =
    let short = ltb (entries_of journal) (suc below) in
    let outer =
      >>-sound (refuse_if short journal_short) (probe journal d below >> probe journal d 0) h in
    let inner = >>-sound (probe journal d below) (probe journal d 0) outer.1 in
    let long = refuse_if_sound short journal_short outer.0 in
    (
      ltb-false (entries_of journal) (suc below) long,
      probe_sound journal d below inner.0,
      probe_sound journal d 0 inner.1,
    )

pub check_journal_complete :
    (journal : Option Bytes) (d : LevelDbCalendar) (idx : ℕ)
    → Describes journal d idx
    → check_journal journal d idx ≡ passes tt
unfolding check_journal
check_journal_complete journal d zero h = refl
check_journal_complete journal d (suc below) (long, last, first) =
    rw (false-ltb (entries_of journal) (suc below) long)
      (rw (probe_complete journal d below last) (probe_complete journal d 0 first))

-- A checkpoint that may be trusted: it names the generation of this database, lies at or below
-- the committed watermark, and describes the journal that is here.
pub record IsTrusted (s : Storage) (idx : ℕ) : Type 0 where
  pub named : Bytes
  pub written :
      read_checkpoint s.known_good ≡ checkpoint (record { idx = idx; generation = some named })
  pub lineage : s.database.generation ≡ some named
  pub committed : (w : ℕ) → s.database.watermark ≡ some w → idx ≤ w
  pub described : Describes s.journal s.database idx
