-- ===== src/System/Reach.antt =====
-- otsserver/stamper.py: the states that a calendar comes to.
use opentimestamps_server.Prelude.{
  ℕ, ◌≤◌, ◌≡◌, true, some, Bytes, elem, get_elem?, inl, inr, ◌⊎◌, arith, dec_lt,
}
use opentimestamps_server.Prelude.Dict.{lookup}
use opentimestamps_server.Stamper.{Stamper}
use opentimestamps_server.Stamper.Coverage.{IsOutstanding}
use opentimestamps_server.Stamper.Watermark.{IsAnchoredBelow}
use opentimestamps_server.System.{System, IsReachable}
use opentimestamps_server.System.Steps.{IsRunning, reachable-IsGood}

-- Where an entry of the journal is: in the database, or outstanding in the stamper, or not yet read.
abbrev pub IsKnown : System → Bytes → ℕ → Stamper → Type 0
IsKnown y c i s = (elem c y.calendar.held ≡ true) ⊎ IsOutstanding c s ⊎ (s.journal_cursor ≤ i)

pub record IsAccounted (y : System) : Type 0 where
  pub entries :
      (i : ℕ) (c : Bytes) (s : Stamper)
      → get_elem? y.journal i ≡ some c
      → y.stamper ≡ some s
      → IsKnown y c i s
  pub watermark : IsAnchoredBelow (get_elem? y.journal) y.calendar.held y.calendar.watermark
  pub checkpoint :
      (k : ℕ)
      → y.calendar.known_good ≡ some k
      → IsAnchoredBelow (get_elem? y.journal) y.calendar.held k

-- In every state that a calendar comes to from its creation on, by appends, reads, discoveries,
-- blocks and reorgs, saves that fail or not, sends, and stops and starts at any moment between
-- these: an entry of the journal is in the database, or, while the stamper runs, pending or in a
-- mined tree, or still ahead of its cursor; and the entries below the watermark, and those below
-- the checkpoint from which a start goes on, are all in the database.
pub reachable-IsAccounted : (y : System) → IsReachable y → IsAccounted y
reachable-IsAccounted y reached =
    let g = reachable-IsGood reached in
    record {
      entries = λ i c s at up. place i c s (g.running s up) at;
      watermark = g.on_disk.watermark;
      checkpoint = g.on_disk.known_good;
    }
  where
    indexed :
        (i : ℕ) (c : Bytes) (s : Stamper)
        → IsRunning y.journal y.calendar.held s
        → (elem c y.calendar.held ≡ true)
          ⊎ ((j : ℕ) × (lookup c s.commitment_idxs ≡ some j) × (j ≤ i))
        → IsKnown y c i s
    indexed i c s h (inl there) = inl there
    indexed i c s h (inr (j, found, le)) = inr (inl (h.complete.outstanding c j found))

    place :
        (i : ℕ) (c : Bytes) (s : Stamper)
        → IsRunning y.journal y.calendar.held s
        → get_elem? y.journal i ≡ some c
        → IsKnown y c i s
    place i c s h at = elim (dec_lt i s.journal_cursor) [
      | yes behind ↦ indexed i c s h (h.complete.indexed i c behind at)
      | no ahead ↦ inr (inr (omega arith))
    ]
