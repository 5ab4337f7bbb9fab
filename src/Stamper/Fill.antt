-- ===== src/Stamper/Fill.antt =====
-- otsserver/stamper.py: the read of the journal at the head of each turn of `Stamper.__loop`.
use Prim.Native.Nat.{zero, suc}
use opentimestamps_server.Prelude.{
  ℕ, ◌+◌, Bool, true, false, Option, none, some, Bytes, length, ltb, if◌then◌else◌, is_some,
}
use opentimestamps_server.Prelude.Dict.{Dict, lookup, insert}
use opentimestamps_server.Stamper.{Stamper, add}

-- What `journal[idx]` does.
pub data Read : Type 0 where
  entry : Bytes → Read
  key_error raises : Read

-- What the loop reads: the journal, the calendar's membership (`none` where it raises), and the
-- sidecar's counts (always unknown where anchor receipts are off).
pub record Reads : Type 0 where
  pub journal : ℕ → Read
  pub in_calendar : Bytes → Option Bool
  pub count : ℕ → Option ℕ

-- `commitment_idxs.setdefault(commitment, idx)`
abbrev pub set_default : Bytes → ℕ → Dict ℕ → Dict ℕ
set_default c idx d = if is_some (lookup c d) then d else insert c idx d

abbrev pub set_count : Bytes → Option ℕ → Dict ℕ → Dict ℕ
set_count c none d = d
set_count c (some n) d = insert c n d

-- A commitment that the calendar lacks.
unfoldable pub take_up : Reads → ℕ → Bytes → Stamper → Stamper
take_up r idx c s = record s {
  pending_commitments = add s.pending_commitments c;
  commitment_idxs = set_default c idx s.commitment_idxs;
  commitment_records = set_count c (r.count idx) s.commitment_records;
}

-- The state after a round, or `none` where the loop ends: at the end of the journal, or at a read
-- that raises, which adds nothing.
abbrev pub member : Reads → ℕ → Bytes → Option Bool → Stamper → Option Stamper
member r idx c none s = none
member r idx c (some true) s = some s
member r idx c (some false) s = some (take_up r idx c s)

abbrev pub of_read : Reads → ℕ → Read → Stamper → Option Stamper
of_read r idx (entry c) s = member r idx c (r.in_calendar c) s
of_read r idx key_error s = none
of_read r idx raises s = none

unfoldable pub fill_one : Reads → ℕ → Stamper → Option Stamper
fill_one r idx s = of_read r idx (r.journal idx) s

-- The inner `while`, with fuel for its rounds; `idx` is the scan's index.
unfoldable pub fill : ℕ → ℕ → Reads → ℕ → Stamper → ℕ × Stamper
fill zero max_pending r idx s = (idx, s)
fill (suc fuel) max_pending r idx s = elim (ltb (length s.pending_commitments) max_pending) [
  | true ↦ elim (fill_one r idx s) [
    | some s' ↦ fill fuel max_pending r (idx + 1) s'
    | none ↦ (idx, s)
  ]
  | false ↦ (idx, s)
]

-- The fill from the cursor, and the cursor after it.
unfoldable pub fill_pending : ℕ → ℕ → Reads → Stamper → Stamper
unfolding fill
fill_pending fuel max_pending r s =
    let (idx, s') = fill fuel max_pending r s.journal_cursor s in record s' { journal_cursor = idx }
