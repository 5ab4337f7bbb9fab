-- ===== src/System/Bounds.antt =====
-- otsserver/stamper.py: the cursor, the watermark and the checkpoint beside the journal's length.
use Prim.Native.Nat.{zero, suc}
use mathlib.Core.Option.{some-injective}
use opentimestamps_server.Prelude.{
  ℕ, ◌+◌, ◌≤◌, ◌<◌, ◌≡◌, ◌∙◌, refl, sym, subst, Bool, true, false, Option, none, some, List, [],
  ◌∷◌, ◌++◌, Bytes, get_elem?, get_elem?-append_lt, length, ltb, Bool-cases, Option-cases, inl, inr,
  arith,
}
use opentimestamps_server.Prelude.NatDict
use opentimestamps_server.Stamper.{Stamper, TimestampTx}
use opentimestamps_server.Stamper.Fill.{
  Read, entry, key_error, raises, Reads, fill_one, fill, fill_pending, of_read,
}
use opentimestamps_server.Stamper.Coverage.{IsComplete, IsFaithful}
use opentimestamps_server.Stamper.Save.{
  Calendar, SaveDisk, checkpoint_after, retire_tree, save_timestamps, save_found, save_tree,
  write_known_good,
}
use opentimestamps_server.Stamper.Watermark.{IsAnchoredBelow, checkpoint_after-le}

pub get_elem?-in {ℓ} :
    {A : Type ℓ} (xs : List A) (i : ℕ) (x : A) → get_elem? xs i ≡ some x → i < length xs
get_elem?-in [] i x e = cc
get_elem?-in (y ∷ xs) zero x e = omega arith
get_elem?-in (y ∷ xs) (suc i) x e = omega (arith, get_elem?-in xs i x e)

module _ (journal : List Bytes) (held : List Bytes) (r : Reads)
    (f : IsFaithful (get_elem? journal) held r) where
  -- A round of the read goes past an entry that is there.
  of_read-in :
      (n : ℕ) (rd : Read) (s s' : Stamper)
      → r.journal n ≡ rd
      → of_read r n rd s ≡ some s'
      → n < length journal
  of_read-in n (entry c) s s' at e = get_elem?-in journal n c (f.entries n c at)
  of_read-in n key_error s s' at e = cc
  of_read-in n raises s s' at e = cc

  fill_one-in : (n : ℕ) (s s' : Stamper) → fill_one r n s ≡ some s' → n < length journal
  unfolding fill_one
  fill_one-in n s s' e = of_read-in n (r.journal n) s s' refl e

  fill-in :
      (fuel max_pending n : ℕ) (s : Stamper)
      → n ≤ length journal
      → (fill fuel max_pending r n s).0 ≤ length journal
  unfolding fill
  fill-in zero max_pending n s le = le
  fill-in (suc fuel) max_pending n s le =
      elim (Bool-cases (ltb (length s.pending_commitments) max_pending)) [
        | inr full ↦ rw (full, fill) le
        | inl room ↦
            rw (room, fill)
              (elim (Option-cases (fill_one r n s)) [
                | inl ended ↦ rw (ended, fill) le
                | inr (s', went) ↦
                    rw (went, fill)
                      (fill-in fuel max_pending (n + 1) s' (omega (arith, fill_one-in n s s' went)))
              ])
      ]

  pub fill_pending-in :
      (fuel max_pending : ℕ) (s : Stamper)
      → s.journal_cursor ≤ length journal
      → (fill_pending fuel max_pending r s).journal_cursor ≤ length journal
  unfolding fill_pending
  fill_pending-in fuel max_pending s le = fill-in fuel max_pending s.journal_cursor s le

-- The calendar's watermark and checkpoint are at most `n`.
pub record IsWithin (n : ℕ) (cal : Calendar) : Type 0 where
  pub watermark : cal.watermark ≤ n
  pub known_good : (k : ℕ) → cal.known_good ≡ some k → k ≤ n

written-IsWithin :
    (n idx : ℕ) (b : Bool) (nodes : List Bytes) (tx : TimestampTx) (cal : Calendar)
    → idx ≤ n
    → IsWithin n cal
    → IsWithin n (write_known_good b idx (save_timestamps nodes tx idx cal))
written-IsWithin n idx true nodes tx cal le h = record {
  watermark = le;
  known_good = λ k e. subst (λ j. j ≤ n) (some-injective idx k e) le;
}
written-IsWithin n idx false nodes tx cal le h = record {
  watermark = le;
  known_good = h.known_good;
}

-- A save keeps the cursor, and the calendar's indexes below it.
abbrev IsSaved : ℕ → Stamper → Stamper × Calendar → Type 0
IsSaved n s (t, cal) = (t.journal_cursor ≡ s.journal_cursor) × IsWithin n cal

save_found-IsSaved :
    (journal : ℕ → Option Bytes) (n : ℕ) (disk : SaveDisk) (height : ℕ) (o : Option TimestampTx)
    (s : Stamper) (cal : Calendar)
    → IsComplete journal cal.held s.journal_cursor s
    → s.journal_cursor ≤ n
    → IsWithin n cal
    → IsSaved n s (save_found disk height o (s, cal))
unfolding retire_tree
save_found-IsSaved journal n disk height none s cal h le w = (refl, w)
save_found-IsSaved journal n disk height (some tx) s cal h le w =
    elim (Bool-cases (disk.saves height)) [
      | inl saved ↦ rw saved (
        refl,
        written-IsWithin n (checkpoint_after tx s) (disk.checkpoints height) (disk.nodes height) tx
            cal (omega (arith, checkpoint_after-le journal cal.held tx s h)) w,
      )
      | inr failed ↦ rw failed (refl, w)
    ]

pub save_tree-IsSaved :
    (journal : ℕ → Option Bytes) (n : ℕ) (disk : SaveDisk) (height : ℕ) (s : Stamper)
    (cal : Calendar)
    → IsComplete journal cal.held s.journal_cursor s
    → s.journal_cursor ≤ n
    → IsWithin n cal
    → let (t, cal') = save_tree disk height (s, cal) in
      (t.journal_cursor ≡ s.journal_cursor) × IsWithin n cal'
unfolding save_tree
save_tree-IsSaved journal n disk height s cal h le w =
    save_found-IsSaved journal n disk height (NatDict.lookup height s.txs_waiting_for_confirmation)
      s cal h le w

-- An entry at the end of the journal lies past every cursor.
pub more-IsAnchoredBelow :
    (journal : List Bytes) (c : Bytes) (held : List Bytes) (k : ℕ)
    → k ≤ length journal
    → IsAnchoredBelow (get_elem? journal) held k
    → IsAnchoredBelow (get_elem? (journal ++ c ∷ [])) held k
more-IsAnchoredBelow journal c held k le h i d lt at =
    h i d lt (sym (get_elem?-append_lt journal (c ∷ []) i (omega arith)) ∙ at)

pub longer-IsComplete :
    (journal : List Bytes) (c : Bytes) (held : List Bytes) (n : ℕ) (s : Stamper)
    → n ≤ length journal
    → IsComplete (get_elem? journal) held n s
    → IsComplete (get_elem? (journal ++ c ∷ [])) held n s
longer-IsComplete journal c held n s le h = record {
  indexed = λ i d lt at.
      h.indexed i d lt (sym (get_elem?-append_lt journal (c ∷ []) i (omega arith)) ∙ at);
  outstanding = h.outstanding;
  below = h.below;
}
