-- ===== src/System/Steps.antt =====
-- otsserver/stamper.py: each step of a calendar, and what it leaves of the journal entries.
use mathlib.Core.Option.{some-injective}
use opentimestamps_server.Prelude.{
  ℕ, ◌+◌, ◌≤◌, ◌≡◌, ◌∙◌, refl, sym, ap, subst, Option, none, some, List, [], ◌∷◌, ◌++◌, Bytes, elem,
  get_elem?, length, length-append, inl, inr, arith,
}
use opentimestamps_server.Prelude.Dict.{lookup}
use opentimestamps_server.Prelude.NatDict
use opentimestamps_server.Stamper.{Stamper, KnownBlock}
use opentimestamps_server.Stamper.Fill.{Reads, fill_pending}
use opentimestamps_server.Stamper.Blocks.{Pass, enqueue_blocks, process_blocks}
use opentimestamps_server.Stamper.Reorg.{keep, process_blocks-IsComplete, process_blocks-cursor}
use opentimestamps_server.Stamper.Coverage.{
  IsOutstanding, IsComplete, IsFaithful, fill_pending-IsComplete,
}
use opentimestamps_server.Stamper.Headers.{update_from_proxy}
use opentimestamps_server.Stamper.Save.{Calendar, SaveDisk, save_tree, save_trees}
use opentimestamps_server.Stamper.Saves.{IsSound, IsSoundPair, save_trees-IsSound}
use opentimestamps_server.Stamper.Watermark.{IsAnchoredBelow}
use opentimestamps_server.Stamper.Sending.{send_pass}
use opentimestamps_server.Stamper.Sends.{IsKept}
use opentimestamps_server.Stamper.Passes.{send_pass-IsOutcome}
use opentimestamps_server.System.{
  System, created, start_index, started_at, with_known, discover, saved_system, Step, append, start,
  stop, delete, fill, headers, blocks, save, send, IsReachable, first, after,
}
use opentimestamps_server.System.Bounds.{
  fill_pending-in, IsWithin, save_tree-IsSaved, more-IsAnchoredBelow, longer-IsComplete,
}

-- A stamper that lost no entry, at a cursor inside the journal.
pub record IsRunning (journal : List Bytes) (held : List Bytes) (s : Stamper) : Type 0 where
  pub complete : IsComplete (get_elem? journal) held s.journal_cursor s
  pub inside : s.journal_cursor ≤ length journal

-- What is on disk: below the watermark and below the checkpoint there are anchored entries only.
pub record IsTrue (journal : List Bytes) (cal : Calendar) : Type 0 where
  pub watermark : IsAnchoredBelow (get_elem? journal) cal.held cal.watermark
  pub known_good :
      (k : ℕ) → cal.known_good ≡ some k → IsAnchoredBelow (get_elem? journal) cal.held k
  pub within : IsWithin (length journal) cal

pub record IsGood (y : System) : Type 0 where
  pub on_disk : IsTrue y.journal y.calendar
  pub running : (s : Stamper) → y.stamper ≡ some s → IsRunning y.journal y.calendar.held s

-- A step that only changes the stamper.
stamper-IsGood :
    (y : System) (t : Stamper)
    → IsGood y
    → IsRunning y.journal y.calendar.held t
    → IsGood (record y { stamper = some t })
stamper-IsGood y t g h = record {
  on_disk = g.on_disk;
  running = λ s e. subst (IsRunning y.journal y.calendar.held) (some-injective t s e) h;
}

append-IsGood :
    (y : System) (c : Bytes) → IsGood y → IsGood (record y { journal = y.journal ++ c ∷ [] })
append-IsGood y c g = record {
  on_disk = record {
    watermark =
        more-IsAnchoredBelow y.journal c y.calendar.held y.calendar.watermark
          g.on_disk.within.watermark g.on_disk.watermark;
    known_good = λ k e.
        more-IsAnchoredBelow y.journal c y.calendar.held k (g.on_disk.within.known_good k e)
          (g.on_disk.known_good k e);
    within = record {
      watermark = omega (arith, longer, g.on_disk.within.watermark);
      known_good = λ k e. omega (arith, longer, g.on_disk.within.known_good k e);
    };
  };
  running = λ s e.
      let h = g.running s e in
      record {
        complete =
            longer-IsComplete y.journal c y.calendar.held s.journal_cursor s h.inside h.complete;
        inside = omega (arith, longer, h.inside);
      };
}
  where
    longer : length (y.journal ++ c ∷ []) ≡ length y.journal + 1
    longer = length-append y.journal (c ∷ [])

started-IsRunning :
    (journal : List Bytes) (cal : Calendar) (departure : ℕ) (o : Option ℕ)
    → cal.known_good ≡ o
    → IsTrue journal cal
    → IsRunning journal cal.held (started_at departure (start_index o))
unfolding started_at lookup
started-IsRunning journal cal departure none at t = record {
  complete = record {
    indexed = λ i c lt e. absurd (omega arith);
    outstanding = λ c j e. cc;
    below = tt;
  };
  inside = omega arith;
}
started-IsRunning journal cal departure (some k) at t = record {
  complete = record {
    indexed = λ i c lt e. inl (t.known_good k at i c lt e);
    outstanding = λ c j e. cc;
    below = tt;
  };
  inside = t.within.known_good k at;
}

stop-IsGood : (y : System) → IsGood y → IsGood (record y { stamper = none })
stop-IsGood y g = record { on_disk = g.on_disk; running = λ s e. cc }

delete-IsGood :
    (y : System)
    → IsGood y
    → IsGood (record y { calendar = record y.calendar { known_good = none } })
delete-IsGood y g = record {
  on_disk = record {
    watermark = g.on_disk.watermark;
    known_good = λ k e. cc;
    within = record { watermark = g.on_disk.within.watermark; known_good = λ k e. cc };
  };
  running = g.running;
}

fill-IsRunning :
    (y : System) (s : Stamper) (fuel max_pending : ℕ) (r : Reads)
    → IsFaithful (get_elem? y.journal) y.calendar.held r
    → IsRunning y.journal y.calendar.held s
    → IsRunning y.journal y.calendar.held (fill_pending fuel max_pending r s)
fill-IsRunning y s fuel max_pending r f h = record {
  complete =
      fill_pending-IsComplete (get_elem? y.journal) y.calendar.held r f fuel max_pending s
        h.complete;
  inside = fill_pending-in y.journal y.calendar.held r f fuel max_pending s h.inside;
}

discover-IsRunning :
    (journal held : List Bytes) (s : Stamper) (o : Option (List KnownBlock) × List KnownBlock)
    → IsRunning journal held s
    → IsRunning journal held (with_known o s)
unfolding enqueue_blocks
discover-IsRunning journal held s (none, known) h = record {
  complete =
      keep (get_elem? journal) held s.journal_cursor s (record s { known_blocks = known }) refl
        (λ c out. out) h.complete;
  inside = h.inside;
}
discover-IsRunning journal held s (some new, known) h = record {
  complete =
      unfold enqueue_blocks in
      keep (get_elem? journal) held s.journal_cursor s
        (enqueue_blocks new (record s { known_blocks = known })) refl (λ c out. out) h.complete;
  inside = h.inside;
}

blocks-IsRunning :
    (journal held : List Bytes) (s : Stamper) (p : Pass) (body : Bytes → Option (List Bytes))
    → IsRunning journal held s
    → IsRunning journal held (process_blocks p body s).1
blocks-IsRunning journal held s p body h =
    let e = process_blocks-cursor p body s in
    record {
      complete =
          subst (λ n. IsComplete (get_elem? journal) held n (process_blocks p body s).1) (sym e)
            (process_blocks-IsComplete (get_elem? journal) held s.journal_cursor p body s
              h.complete);
      inside = omega (arith, e, h.inside);
    }

kept-IsRunning :
    (journal held : List Bytes) (s t : Stamper)
    → IsKept s t
    → IsRunning journal held s
    → IsRunning journal held t
kept-IsRunning journal held s t k h = record {
  complete =
      subst (λ n. IsComplete (get_elem? journal) held n t) (sym k.cursor)
        (keep (get_elem? journal) held s.journal_cursor s t k.indexes moves h.complete);
  inside = omega (arith, k.cursor, h.inside);
}
  where
    moves : (c : Bytes) → IsOutstanding c s → IsOutstanding c t
    moves c (inl there) = inl (ap (elem c) k.pending ∙ there)
    moves c (inr (height, tx, found, there)) =
        inr (height, tx, ap (NatDict.lookup height) k.mined ∙ found, there)

saved-IsGood :
    (y : System) (t : Stamper) (cal : Calendar)
    → IsSound (get_elem? y.journal) t cal
    → t.journal_cursor ≤ length y.journal
    → IsWithin (length y.journal) cal
    → IsGood (saved_system y (t, cal))
saved-IsGood y t cal sound inside within = record {
  on_disk = record { watermark = sound.watermark; known_good = sound.known_good; within = within };
  running = λ s e.
      subst (IsRunning y.journal cal.held) (some-injective t s e)
        (record { complete = sound.complete; inside = inside });
}

save_tree-IsSound :
    (journal : ℕ → Option Bytes) (disk : SaveDisk) (height : ℕ) (s : Stamper) (cal : Calendar)
    → IsSound journal s cal
    → IsSoundPair journal (save_tree disk height (s, cal))
unfolding save_trees
save_tree-IsSound journal disk height s cal h =
    save_trees-IsSound journal disk (height ∷ []) (s, cal) h

save-IsGood :
    (y : System) (s : Stamper) (disk : SaveDisk) (height : ℕ)
    → y.stamper ≡ some s
    → IsGood y
    → IsGood (saved_system y (save_tree disk height (s, y.calendar)))
save-IsGood y s disk height up g =
    let h = g.running s up in
    let sound = save_tree-IsSound (get_elem? y.journal) disk height s y.calendar (record {
      complete = h.complete;
      watermark = g.on_disk.watermark;
      known_good = g.on_disk.known_good;
    }) in
    let kept =
      save_tree-IsSaved (get_elem? y.journal) (length y.journal) disk height s y.calendar h.complete
        h.inside g.on_disk.within in
    saved-IsGood y (save_tree disk height (s, y.calendar)).0
      (save_tree disk height (s, y.calendar)).1 sound (omega (arith, kept.0, h.inside)) kept.1

Step-IsGood : (y z : System) → Step y z → IsGood y → IsGood z
unfolding discover
Step-IsGood y z (append c e) g = subst IsGood (sym e) (append-IsGood y c g)
Step-IsGood y z (start departure down e) g = subst IsGood (sym e) (
    stamper-IsGood y (started_at departure (start_index y.calendar.known_good)) g
      (started-IsRunning y.journal y.calendar departure y.calendar.known_good refl g.on_disk))
Step-IsGood y z (stop e) g = subst IsGood (sym e) (stop-IsGood y g)
Step-IsGood y z (delete e) g = subst IsGood (sym e) (delete-IsGood y g)
Step-IsGood y z (fill s fuel max_pending r up f e) g = subst IsGood (sym e) (
    stamper-IsGood y (fill_pending fuel max_pending r s) g
      (fill-IsRunning y s fuel max_pending r f (g.running s up)))
Step-IsGood y z (headers s fuel p up e) g = subst IsGood (sym e) (
    stamper-IsGood y (with_known (update_from_proxy fuel p s.known_blocks) s) g (
      discover-IsRunning y.journal y.calendar.held s (update_from_proxy fuel p s.known_blocks)
        (g.running s up)))
Step-IsGood y z (blocks s p body up e) g = subst IsGood (sym e) (
    stamper-IsGood y (process_blocks p body s).1 g
      (blocks-IsRunning y.journal y.calendar.held s p body (g.running s up)))
Step-IsGood y z (save s disk height up e) g =
    subst IsGood (sym e) (save-IsGood y s disk height up g)
Step-IsGood y z (send s fuel c n l now departure new up e) g = subst IsGood (sym e) (
    stamper-IsGood y (send_pass fuel c n l now departure new s).1 g (
      kept-IsRunning y.journal y.calendar.held s (send_pass fuel c n l now departure new s).1
        (send_pass-IsOutcome fuel c n l now departure new s).0 (g.running s up)))

created-IsGood : IsGood created
created-IsGood = record {
  on_disk = record {
    watermark = λ i c lt at. absurd (omega arith);
    known_good = λ k e. cc;
    within = record { watermark = omega arith; known_good = λ k e. cc };
  };
  running = λ s e. cc;
}

pub reachable-IsGood : {y : System} → IsReachable y → IsGood y
reachable-IsGood first = created-IsGood
reachable-IsGood (after {y} {z} before step) = Step-IsGood y z step (reachable-IsGood before)
