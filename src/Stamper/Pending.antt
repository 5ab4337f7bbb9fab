-- ===== src/Stamper/Pending.antt =====
-- otsserver/stamper.py: `Stamper.is_pending`, which tells a client why a commitment is not served.
use Prim.Native.Nat.{zero, suc}
use mathlib.Core.Bool.{◌||◌}
use opentimestamps_server.Prelude.{
  ℕ, ◌+◌, Bool, false, Option, none, some, [], ◌∷◌, Bytes, bytes_eq, elem, if◌then◌else◌,
}
use opentimestamps_server.Prelude.NatDict.{NatDict}
use opentimestamps_server.Stamper.{Stamper, TimestampTx}

-- The two answers that are true for Python: "Pending confirmation in Bitcoin blockchain", and
-- "Timestamped by transaction ...; waiting for ... confirmations".
pub data Reason : Type 0 where
  pending_confirmation : Reason
  timestamped_by : Bytes → ℕ → Reason

-- The `while` over the journal from the cursor on, with fuel for its rounds: `none` is the
-- `KeyError` that ends it, and the answer is whether the commitment was met.
unfoldable pub scan : ℕ → (ℕ → Option Bytes) → ℕ → Bytes → Bool
scan zero journal idx commitment = false
scan (suc fuel) journal idx commitment = elim (journal idx) [
  | none ↦ false
  | some recent ↦ bytes_eq recent commitment || scan fuel journal (idx + 1) commitment
]

unfoldable pub waiting : ℕ → Bytes → NatDict TimestampTx → Option Reason
waiting min_confirmations commitment [] = none
waiting min_confirmations commitment ((height, ttx) ∷ d) =
    let rest = waiting min_confirmations commitment d in
    if elem commitment ttx.commitments
    then some (timestamped_by ttx.txid min_confirmations)
    else rest

-- `idx = self.journal_cursor` and the `while idx is not None` after it: the cursor is `None` until the
-- stamper has filled its pending commitments for the first time.
unfoldable pub met_ahead : ℕ → (ℕ → Option Bytes) → Option ℕ → Bytes → Bool
unfolding scan
met_ahead fuel journal none commitment = false
met_ahead fuel journal (some idx) commitment = scan fuel journal idx commitment

-- `is_pending` with the cursor as it is at the call; `none` is `False`.
unfoldable pub is_pending : ℕ → (ℕ → Option Bytes) → ℕ → Option ℕ → Stamper → Bytes → Option Reason
unfolding met_ahead waiting
is_pending fuel journal min_confirmations cursor s commitment =
    if elem commitment s.pending_commitments
    then some pending_confirmation
    else if met_ahead fuel journal cursor commitment
    then some pending_confirmation
    else waiting min_confirmations commitment s.txs_waiting_for_confirmation
