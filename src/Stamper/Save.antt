-- ===== src/Stamper/Save.antt =====
-- otsserver/stamper.py: `__checkpoint_after` and `__save_mature_trees`.
use opentimestamps_server.Prelude.{
  ℕ, ◌+◌, Bool, true, false, Option, none, some, List, [], ◌∷◌, ◌++◌, Bytes, elem, leb, min,
  if◌then◌else◌,
}
use opentimestamps_server.Prelude.Dict.{Dict, erase}
use opentimestamps_server.Prelude.NatDict
use opentimestamps_server.Prelude.NatDict.{NatDict}
use opentimestamps_server.Stamper.{Stamper, TimestampTx}

-- The calendar as the stamper sees it: the messages in the database, its watermark, and the index
-- in journal.known-good.
pub record Calendar : Type 0 where
  pub held : List Bytes
  pub watermark : ℕ
  pub known_good : Option ℕ

-- `[idx for msg, idx in self.commitment_idxs.items() if msg not in saved]`
unfoldable pub remaining : List Bytes → Dict ℕ → List ℕ
remaining saved [] = []
remaining saved ((msg, idx) ∷ d) =
    let rest = remaining saved d in if elem msg saved then rest else idx ∷ rest

-- `min(remaining) if remaining else self.journal_cursor`
unfoldable pub min_or : ℕ → List ℕ → ℕ
min_or cursor [] = cursor
min_or cursor (i ∷ []) = i
min_or cursor (i ∷ j ∷ is) = min i (min_or cursor (j ∷ is))

unfoldable pub checkpoint_after : TimestampTx → Stamper → ℕ
unfolding remaining min_or
checkpoint_after tx s = min_or s.journal_cursor (remaining tx.commitments s.commitment_idxs)

-- `for ...: self.commitment_idxs.pop(msg, None)`
unfoldable pub release {ℓ} : {V : Type ℓ} → List Bytes → Dict V → Dict V
release [] d = d
release (c ∷ cs) d = release cs (erase c d)

-- What the disk does with a tree's save (`false`: it raised, and nothing was saved) and with the
-- checkpoint file (`false`: it could not be written, which only warns); and the messages of the
-- other nodes on the paths from the tree's commitments, which the save writes with them.
pub record SaveDisk : Type 0 where
  pub saves : ℕ → Bool
  pub checkpoints : ℕ → Bool
  pub nodes : ℕ → List Bytes

unfoldable pub retire_tree : ℕ → TimestampTx → Stamper → Stamper
unfolding release
retire_tree height tx s = record s {
  txs_waiting_for_confirmation = NatDict.erase height s.txs_waiting_for_confirmation;
  commitment_idxs = release tx.commitments s.commitment_idxs;
  commitment_records = release tx.commitments s.commitment_records;
}

-- The synchronous batch: the timestamps, and the watermark that they make true.
abbrev pub save_timestamps : List Bytes → TimestampTx → ℕ → Calendar → Calendar
save_timestamps nodes tx watermark cal = record cal {
  held = tx.commitments ++ (nodes ++ cal.held);
  watermark = watermark;
}

abbrev pub write_known_good : Bool → ℕ → Calendar → Calendar
write_known_good true idx cal = record cal { known_good = some idx }
write_known_good false idx cal = cal

abbrev pub save_found : SaveDisk → ℕ → Option TimestampTx → Stamper × Calendar → Stamper × Calendar
save_found disk height none (s, cal) = (s, cal)
save_found disk height (some tx) (s, cal) =
    if disk.saves height
    then (
      retire_tree height tx s,
      write_known_good (disk.checkpoints height) (checkpoint_after tx s)
          (save_timestamps (disk.nodes height) tx (checkpoint_after tx s) cal),
    )
    else (s, cal)

-- One round of the loop over the due heights.
unfoldable pub save_tree : SaveDisk → ℕ → Stamper × Calendar → Stamper × Calendar
save_tree disk height (s, cal) =
    save_found disk height (NatDict.lookup height s.txs_waiting_for_confirmation) (s, cal)

unfoldable pub save_trees : SaveDisk → List ℕ → Stamper × Calendar → Stamper × Calendar
save_trees disk [] sc = sc
save_trees disk (h ∷ hs) sc = save_trees disk hs (save_tree disk h sc)

unfoldable pub insert_sorted : ℕ → List ℕ → List ℕ
insert_sorted h [] = h ∷ []
insert_sorted h (k ∷ ks) = if leb h k then h ∷ k ∷ ks else k ∷ insert_sorted h ks

-- The heights with `height <= best_height - min_confirmations + 1`, sorted.
unfoldable pub due : ℕ → ℕ → NatDict TimestampTx → List ℕ
unfolding insert_sorted
due best_height min_confirmations [] = []
due best_height min_confirmations ((h, tx) ∷ d) =
    let rest = due best_height min_confirmations d in
    if leb (h + min_confirmations) (best_height + 1) then insert_sorted h rest else rest

-- `__save_mature_trees`
unfoldable pub save_mature_trees : SaveDisk → ℕ → ℕ → Stamper × Calendar → Stamper × Calendar
unfolding save_trees due
save_mature_trees disk best_height min_confirmations (s, cal) =
    save_trees disk (due best_height min_confirmations s.txs_waiting_for_confirmation) (s, cal)
