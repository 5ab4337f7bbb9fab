-- ===== src/Database.antt =====
-- otsserver/calendar.py: the meta keys of `LevelDbCalendar`, its opening and its generation.
-- LevelDB is a dictionary of byte strings; a batch lands whole or not at all.
pub mod Meta
pub mod Timestamps
pub mod Readback
pub mod Merge
pub mod Puts
pub mod Additions
pub mod Batches
use mathlib.Core.Bool.{not, ◌&&◌}
use opentimestamps_server.Prelude.{
  ℕ, Bool, true, false, Option, none, some, List, [], ◌∷◌, ◌++◌, Bytes, codes, starts_with, is_some,
  length, ◌==◌, if◌then◌else◌,
}
use opentimestamps_server.Prelude.Dict.{Dict, lookup, insert}
use opentimestamps_server.Checkpoint.{decimal, int_from, all_chars, is_digit}

abbrev pub meta_prefix : Bytes
meta_prefix = 0 ∷ codes "meta/"

abbrev pub meta_generation : Bytes
meta_generation = meta_prefix ++ codes "generation"

abbrev pub meta_watermark : Bytes
meta_watermark = meta_prefix ++ codes "watermark"

-- The open calendar database: what is on disk, and what `__init__` and the batches keep beside it.
pub record LevelDbCalendar : Type 0 where
  pub db : Dict Bytes
  pub generation : Option Bytes
  pub watermark : Option ℕ

-- `adopt_generation`: `fresh` is the value of `secrets.token_hex(16)`. One synchronous batch.
unfoldable pub adopt_generation : Bytes → ℕ → LevelDbCalendar → LevelDbCalendar
adopt_generation fresh watermark d = record {
  db = insert meta_watermark (decimal watermark) (insert meta_generation fresh d.db);
  generation = some fresh;
  watermark = some watermark;
}

-- `int(watermark) if watermark else 0`. Only `adopt_generation` and `add_timestamps` write there, and
-- they write decimal digits; the signs, spaces and underscores that `int` reads too are not read.
unfoldable pub read_watermark : Option Bytes → Option ℕ
read_watermark none = some 0
read_watermark (some raw) =
    if length raw == 0
    then some 0
    else if all_chars is_digit raw
    then some (int_from 0 raw)
    else none

abbrev pub is_empty : Dict Bytes → Bool
is_empty [] = true
is_empty (e ∷ d) = false

-- `LevelDbCalendar.__init__`, once LevelDB is open; `none` is the `ValueError` of `int`.
abbrev with_generation : Dict Bytes → Bytes → Option ℕ → Option LevelDbCalendar
with_generation db raw none = none
with_generation db raw (some w) =
    some (record { db = db; generation = some raw; watermark = some w })

abbrev opened : Bytes → Dict Bytes → Option Bytes → Option LevelDbCalendar
opened fresh db (some raw) = with_generation db raw (read_watermark (lookup meta_watermark db))
opened fresh db none =
    let bare : LevelDbCalendar = record { db = db; generation = none; watermark = none } in
    if is_empty db then some (adopt_generation fresh 0 bare) else some bare

unfoldable pub open_database : Bytes → Dict Bytes → Option LevelDbCalendar
unfolding adopt_generation read_watermark
open_database fresh db = opened fresh db (lookup meta_generation db)

-- `__contains__`: a meta key is no commitment.
unfoldable pub contains : LevelDbCalendar → Bytes → Bool
contains d msg = if starts_with msg meta_prefix then false else is_some (lookup msg d.db)
