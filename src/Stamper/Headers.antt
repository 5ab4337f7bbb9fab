-- ===== src/Stamper/Headers.antt =====
-- otsserver/stamper.py: `KnownBlocks`, the headers that the stamper has seen, newest first.
use Prim.Native.Nat.{zero, suc}
use opentimestamps_server.Prelude.{
  ℕ, ◌+◌, Option, none, some, List, [], ◌∷◌, ◌++◌, Bytes, bytes_eq, if◌then◌else◌,
}
use opentimestamps_server.Stamper.{KnownBlock}

-- What `proxy.getblockhash(height)` does.
pub data Answer : Type 0 where
  block_hash : Bytes → Answer
  index_error raises : Answer

-- The node's answers, by the number of calls that came before; `none` is an exception.
pub record Proxy : Type 0 where
  pub getbestblockhash : ℕ → Option Bytes
  pub getblockcount : ℕ → Option ℕ
  pub getblockhash : ℕ → ℕ → Answer

-- `__detect_reorgs`: the number of calls after it, and the blocks that stand.
unfoldable pub detect_reorgs : Proxy → ℕ → List KnownBlock → Option (ℕ × List KnownBlock)
detect_reorgs p t [] = some (t, [])
detect_reorgs p t (b ∷ bs) =
    let rest = detect_reorgs p (t + 1) bs in
    elim (p.getblockhash t b.height) [
      | block_hash h ↦ if bytes_eq h b.hash then some (t + 1, b ∷ bs) else rest
      | index_error ↦ rest
      | raises ↦ none
    ]

-- How the scan ends: with the new blocks and all known ones, or with an exception; `unfinished` is
-- a scan that goes on after its fuel.
pub data Scan : Type 0 where
  returned : List KnownBlock → List KnownBlock → Scan
  raised unfinished : Scan

-- The rest of the scan after a round, from the number of calls, the known and the new blocks.
abbrev pub Rest : Type 0
Rest = ℕ → List KnownBlock → List KnownBlock → Scan

abbrev pub append_block : Rest → ℕ → ℕ → Answer → List KnownBlock → List KnownBlock → Scan
append_block rest t height (block_hash h) blocks r =
    rest (t + 1) (record { height = height; hash = h } ∷ blocks)
      (r ++ record { height = height; hash = h } ∷ [])
append_block rest t height index_error blocks r = rest (t + 1) blocks r
append_block rest t height raises blocks r = raised

abbrev pub first_height : Proxy → Rest → ℕ → Option ℕ → List KnownBlock → Scan
first_height p rest t none r = raised
first_height p rest t (some height) r =
    append_block rest (t + 1) height (p.getblockhash (t + 1) height) [] r

abbrev pub next_block : Proxy → Rest → Option (ℕ × List KnownBlock) → List KnownBlock → Scan
next_block p rest none r = raised
next_block p rest (some (t, [])) r = first_height p rest t (p.getblockcount t) r
next_block p rest (some (t, b ∷ bs)) r =
    append_block rest t (b.height + 1) (p.getblockhash t (b.height + 1)) (b ∷ bs) r

abbrev pub at_tip :
    Proxy → Rest → ℕ → Option Bytes → KnownBlock → List KnownBlock → List KnownBlock → Scan
at_tip p rest t none b bs r = raised
at_tip p rest t (some best) b bs r =
    if bytes_eq best b.hash
    then returned r (b ∷ bs)
    else next_block p rest (detect_reorgs p (t + 1) (b ∷ bs)) r

-- One round of the `while`.
abbrev pub scan_round : Proxy → Rest → Rest
scan_round p rest t [] r = next_block p rest (detect_reorgs p t []) r
scan_round p rest t (b ∷ bs) r = at_tip p rest t (p.getbestblockhash t) b bs r

unfoldable pub scan_blocks : ℕ → Proxy → Rest
scan_blocks zero p t blocks r = unfinished
scan_blocks (suc fuel) p t blocks r = scan_round p (scan_blocks fuel p) t blocks r

-- The new blocks, or the exception, and the known blocks; a scan with fuel left over has ended.
abbrev pub restored : List KnownBlock → Scan → Option (List KnownBlock) × List KnownBlock
restored known (returned r blocks) = (some r, blocks)
restored known raised = (none, known)
restored known unfinished = (none, known)

-- `update_from_proxy`
unfoldable pub update_from_proxy :
    ℕ → Proxy → List KnownBlock → Option (List KnownBlock) × List KnownBlock
unfolding scan_blocks
update_from_proxy fuel p known = restored known (scan_blocks fuel p 0 known [])
