-- ===== src/Receipts.antt =====
-- otsserver/stamper.py: the receipts file, the pending-receipt markers beside it, and the save of a
-- confirmed anchor between them. A line of the file is the receipt that it holds, and a marker is one
-- that is named by its txid: the single name that was used before 2026-09-16 is left out.
pub mod Books
pub mod Billing
pub mod Settlement
use mathlib.Core.Bool.{not, ◌||◌, ◌&&◌}
use opentimestamps_server.Prelude.{
  ℕ, ◌+◌, Bool, true, false, Option, none, some, List, [], ◌∷◌, ◌++◌, Bytes, bytes_eq, elem, length,
  ltb, ◌==◌, if◌then◌else◌,
}
use opentimestamps_server.Prelude.Int.{ℤ}
use opentimestamps_server.Prelude.Dict.{Dict, lookup, insert, erase}
use opentimestamps_server.Stamper.{TimestampTx}

pub record Receipt : Type 0 where
  pub txid : Bytes
  pub fee_sats : ℤ
  pub commitments : ℕ
  pub confirmed_height : ℕ
  pub confirmed_at : ℕ
  pub records : ℕ

pub data Marker : Type 0 where
  readable : Receipt → Marker
  unreadable : Marker

-- The receipts file as the receipts of its complete lines, first those that are synced and then
-- those that a loss of power would lose, and whether bytes without a newline follow them; the
-- markers by the txid that names them; the markers set aside; and the txids whose node the
-- calendar holds, which `anchor_probe` asks for.
pub record Files : Type 0 where
  pub lines : List Receipt
  pub unsynced_lines : List Receipt
  pub torn : Bool
  pub markers : Dict Marker
  pub set_aside : ℕ
  pub calendar : List Bytes

-- How an append ends: synced; refused before anything is done; refused once an incomplete tail is
-- dropped; interrupted within the line; or with the whole line written and its fsync refused. All
-- but the first raise.
pub data Append : Type 0 where
  synced refused dropped interrupted unsynced : Append

-- How a marker's write ends: in place and synced; not in place; or in place and not synced. All but
-- the first raise.
pub data Placed : Type 0 where
  placed not_placed placed_unsynced : Placed

-- What the disk does with each operation of an anchor; `false` is an exception.
pub record Io : Type 0 where
  pub appends : Bytes → Append
  pub syncs : Bytes → Bool
  pub unlinks : Bytes → Bool
  pub renames : Bytes → Bool
  pub places : Bytes → Placed
  pub saves : Bytes → Bool

-- `_receipt_on_file`: complete lines only.
unfoldable pub receipt_on_file : Bytes → List Receipt → Bool
receipt_on_file txid [] = false
receipt_on_file txid (r ∷ rs) = bytes_eq r.txid txid || receipt_on_file txid rs

-- Every complete line.
abbrev pub complete_lines : Files → List Receipt
complete_lines f = f.lines ++ f.unsynced_lines

-- `os.fsync(fd)`
abbrev pub sync : Files → Files
sync f = record f { lines = f.lines ++ f.unsynced_lines; unsynced_lines = [] }

-- `_recover_receipt_tail`: what follows the last newline is dropped, and the file synced.
abbrev pub recover_receipt_tail : Files → Files
recover_receipt_tail f = if f.torn then sync (record f { torn = false }) else f

-- `_write_all(fd, line)`: behind an incomplete tail the line is glued to it, and their one line is
-- no receipt.
abbrev pub append_line : Receipt → Files → Files
append_line r f =
    if f.torn
    then record f { torn = false }
    else record f { unsynced_lines = f.unsynced_lines ++ r ∷ [] }

-- `_append_anchor_receipt`: whether it returned, and the files.
abbrev pub append_anchor_receipt : Append → Receipt → Files → Bool × Files
append_anchor_receipt synced r f = (true, sync (append_line r (recover_receipt_tail f)))
append_anchor_receipt refused r f = (false, f)
append_anchor_receipt dropped r f = (false, recover_receipt_tail f)
append_anchor_receipt interrupted r f = (false, record (recover_receipt_tail f) { torn = true })
append_anchor_receipt unsynced r f = (false, append_line r (recover_receipt_tail f))

-- A loss of power: what was not synced is gone, and a part of it may stay as an incomplete line.
abbrev pub power_loss : Bool → Files → Files
power_loss part f = record f { unsynced_lines = []; torn = f.torn || part }

-- `os.unlink(path)`
abbrev pub unlink : Bool → Bytes → Files → Files
unlink true name f = record f { markers = erase name f.markers }
unlink false name f = f

-- How a settlement ends; `ahead` is `ReceiptsAheadOfDatabase`, and every other exception is logged.
pub data Settled : Type 0 where
  settled ahead : Settled

abbrev pub recovered : Io → Bytes → Bool × Files → Settled × Files
recovered io name (true, f) = (settled, unlink (io.unlinks name) name f)
recovered io name (false, f) = (settled, f)

-- A readable marker: by whether the calendar holds its anchor, and whether its receipt is on file.
abbrev pub settle_receipt : Io → Bytes → Receipt → Bool → Bool → Files → Settled × Files
settle_receipt io name r true true f =
    if io.syncs r.txid then (settled, unlink (io.unlinks name) name (sync f)) else (settled, f)
settle_receipt io name r true false f =
    recovered io name (append_anchor_receipt (io.appends r.txid) r f)
settle_receipt io name r false true f = (ahead, f)
settle_receipt io name r false false f = (settled, unlink (io.unlinks name) name f)

-- `__settle_marker`, on what the marker's file holds; `none` is a file that is gone.
abbrev pub settle_found : Io → Bytes → Option Marker → Files → Settled × Files
settle_found io name none f = (settled, f)
settle_found io name (some unreadable) f =
    if io.renames name
    then (settled, record f { markers = erase name f.markers; set_aside = f.set_aside + 1 })
    else (settled, f)
settle_found io name (some (readable r)) f =
    settle_receipt io name r (elem r.txid f.calendar) (receipt_on_file r.txid (complete_lines f)) f

unfoldable pub settle_marker : Io → Bytes → Files → Settled × Files
settle_marker io name f = settle_found io name (lookup name f.markers) f

unfoldable pub settle_all : Io → List Bytes → Files → Settled × Files
settle_all io [] f = (settled, f)
settle_all io (name ∷ names) f =
    let (r, f') = settle_marker io name f in
    elim r [ settled ↦ settle_all io names f' | ahead ↦ (ahead, f') ]

-- The order of two names.
unfoldable pub name_leb : Bytes → Bytes → Bool
name_leb [] d = true
name_leb (b ∷ c) [] = false
name_leb (b ∷ c) (e ∷ d) = ltb b e || b == e && name_leb c d

unfoldable pub insert_name : Bytes → List Bytes → List Bytes
unfolding name_leb
insert_name c [] = c ∷ []
insert_name c (d ∷ ds) =
    let rest = insert_name c ds in if name_leb c d then c ∷ d ∷ ds else d ∷ rest

-- `pending_markers`: `sorted(found)`.
unfoldable pub pending_markers : Dict Marker → List Bytes
unfolding insert_name
pending_markers [] = []
pending_markers ((name, m) ∷ d) = insert_name name (pending_markers d)

-- `settle_pending_receipt`, where receipts are on: the markers found at its start.
unfoldable pub settle_pending_receipt : Io → Files → Settled × Files
unfolding settle_all pending_markers
settle_pending_receipt io f = settle_all io (pending_markers f.markers) f

-- The receipt of a confirmed transaction at the time `now`.
abbrev pub receipt_of : ℕ → TimestampTx → Receipt
receipt_of now tx = record {
  txid = tx.txid;
  fee_sats = tx.fee;
  commitments = length tx.commitments;
  confirmed_height = tx.height;
  confirmed_at = now;
  records = tx.records;
}

abbrev pub put_marker : Receipt → Files → Files
put_marker r f = record f { markers = insert r.txid (readable r) f.markers }

-- `_write_pending_receipt`
abbrev pub write_pending_receipt : Placed → Receipt → Files → Bool × Files
write_pending_receipt placed r f = (true, put_marker r f)
write_pending_receipt not_placed r f = (false, f)
write_pending_receipt placed_unsynced r f = (false, put_marker r f)

-- How the save ends.
pub data Saved : Type 0 where
  saved raised : Saved

abbrev pub after_append : Io → Receipt → Bool × Files → Saved × Files
after_append io r (true, f) = (saved, unlink (io.unlinks r.txid) r.txid f)
after_append io r (false, f) = (saved, f)

-- The calendar's save, then the receipt.
abbrev pub save_then_receipt : Io → Receipt → Bool × Files → Saved × Files
save_then_receipt io r (false, f) = (raised, f)
save_then_receipt io r (true, f) =
    if io.saves r.txid
    then after_append io r
        (append_anchor_receipt (io.appends r.txid) r (record f { calendar = r.txid ∷ f.calendar }))
    else (raised, f)

abbrev pub save_settled : Io → Receipt → Settled × Files → Saved × Files
save_settled io r (ahead, f) = (raised, f)
save_settled io r (settled, f) =
    save_then_receipt io r (write_pending_receipt (io.places r.txid) r f)

-- `__save_confirmed_timestamp_tx`, where receipts are on: `recovery` is the disk while the earlier
-- markers are settled, `io` from then on.
unfoldable pub save_confirmed : Io → Io → ℕ → TimestampTx → Files → Saved × Files
unfolding settle_pending_receipt
save_confirmed recovery io now tx f =
    save_settled io (receipt_of now tx) (settle_pending_receipt recovery f)
