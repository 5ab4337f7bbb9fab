-- ===== src/Stamper/Saves.antt =====
-- otsserver/stamper.py: the journal entries across `__save_mature_trees`.
use mathlib.Core.Option.{some-injective}
use opentimestamps_server.Prelude.{
  ℕ, ◌≤◌, ◌<◌, ◌≡◌, refl, ap, ◌∙◌, sym, subst, Bool, true, false, Option, none, some, List, [], ◌∷◌,
  ◌++◌, Bytes, elem, elem-append, arith, if◌then◌else◌, Bool-cases, inl, inr, ◌⊎◌, ==-false,
  ℕ_discrete,
}
use opentimestamps_server.Prelude.Dict.{Dict, lookup, erase, lookup-erase, Values, Values-erase}
use opentimestamps_server.Prelude.NatDict
use opentimestamps_server.Stamper.{Stamper, TimestampTx}
use opentimestamps_server.Stamper.Coverage.{IsOutstanding, IsComplete}
use opentimestamps_server.Stamper.Save.{
  Calendar, SaveDisk, checkpoint_after, release, retire_tree, save_timestamps, save_tree,
  save_found, save_trees, save_mature_trees, due, write_known_good,
}
use opentimestamps_server.Stamper.Watermark.{IsAnchoredBelow, checkpoint_after-IsAnchored}

lookup-release {ℓ} :
    {V : Type ℓ} (cs : List Bytes) (c : Bytes) (d : Dict V)
    → lookup c (release cs d) ≡ (if elem c cs then none else lookup c d)
unfolding release elem
lookup-release [] c d = refl
lookup-release (k ∷ cs) c d = ground (arith, lookup-release cs c (erase k d), lookup-erase k c d)

Values-release :
    (P : ℕ → Type 0) (cs : List Bytes) (d : Dict ℕ) → Values P d → Values P (release cs d)
unfolding release
Values-release P [] d h = h
Values-release P (k ∷ cs) d h = Values-release P cs (erase k d) (Values-erase P k d h)

-- The stamper's state and the calendar's: no entry is lost, and the watermark and the checkpoint
-- on file lie above anchored entries only.
pub record IsSound (journal : ℕ → Option Bytes) (s : Stamper) (cal : Calendar) : Type 0 where
  pub complete : IsComplete journal cal.held s.journal_cursor s
  pub watermark : IsAnchoredBelow journal cal.held cal.watermark
  pub known_good : (k : ℕ) → cal.known_good ≡ some k → IsAnchoredBelow journal cal.held k

retire_tree-IsOutstanding :
    (height : ℕ) (tx : TimestampTx) (s : Stamper) (c : Bytes)
    → NatDict.lookup height s.txs_waiting_for_confirmation ≡ some tx
    → elem c tx.commitments ≡ false
    → IsOutstanding c s
    → IsOutstanding c (retire_tree height tx s)
unfolding retire_tree
retire_tree-IsOutstanding height tx s c at out (inl there) = inl there
retire_tree-IsOutstanding height tx s c at out (inr (k, t, found, there)) =
    elim (ℕ_discrete height k) [
      | yes same ↦ absurd (
          both (
            subst (λ (u : TimestampTx). elem c u.commitments ≡ true)
              (some-injective t tx (
                sym found
                ∙ ap (λ z. NatDict.lookup z s.txs_waiting_for_confirmation) (sym same)
                ∙ at))
              there))
      | no other ↦ inr (k, t, rw NatDict.lookup-erase (rw (==-false height k other) found), there)
    ]
  where
    both : elem c tx.commitments ≡ true → ⊥
    both e = cc

retire_tree-IsComplete :
    (journal : ℕ → Option Bytes) (held : List Bytes) (n height : ℕ) (tx : TimestampTx) (s : Stamper)
    → NatDict.lookup height s.txs_waiting_for_confirmation ≡ some tx
    → IsComplete journal held n s
    → IsComplete journal (tx.commitments ++ held) n (retire_tree height tx s)
unfolding retire_tree
retire_tree-IsComplete journal held n height tx s at h = record {
  indexed = λ i c lt e. elim (Bool-cases (elem c tx.commitments)) [
    | inl rides ↦ inl (rw elem-append (rw rides refl))
    | inr out ↦ still c i out (h.indexed i c lt e)
  ];
  outstanding = λ c j e. elim (Bool-cases (elem c tx.commitments)) [
    | inl rides ↦
        absurd (gone c j rides (sym (lookup-release tx.commitments c s.commitment_idxs) ∙ e))
    | inr out ↦
        unfold retire_tree in
        retire_tree-IsOutstanding height tx s c at out
          (h.outstanding c j (sym (lookup-release_out c out) ∙ e))
  ];
  below = Values-release (λ j. j < n) tx.commitments s.commitment_idxs h.below;
}
  where
    lookup-release_out :
        (c : Bytes)
        → elem c tx.commitments ≡ false
        → lookup c (release tx.commitments s.commitment_idxs) ≡ lookup c s.commitment_idxs
    lookup-release_out c out =
        lookup-release tx.commitments c s.commitment_idxs
        ∙ ap (λ b. if b then none else lookup c s.commitment_idxs) out

    no_value : (j : ℕ) → ◌≡◌ {A = Option ℕ} none (some j) → ⊥
    no_value j e = cc

    gone :
        (c : Bytes) (j : ℕ)
        → elem c tx.commitments ≡ true
        → (if elem c tx.commitments then none else lookup c s.commitment_idxs) ≡ some j
        → ⊥
    gone c j rides e =
        no_value j (sym (ap (λ b. if b then none else lookup c s.commitment_idxs) rides) ∙ e)

    still :
        (c : Bytes) (i : ℕ)
        → elem c tx.commitments ≡ false
        → (elem c held ≡ true) ⊎ ((j : ℕ) × (lookup c s.commitment_idxs ≡ some j) × (j ≤ i))
        → (elem c (tx.commitments ++ held) ≡ true)
          ⊎ ((j : ℕ) × (lookup c (release tx.commitments s.commitment_idxs) ≡ some j) × (j ≤ i))
    still c i out (inl there) = inl (rw elem-append (rw out there))
    still c i out (inr (j, found, le)) = inr (j, lookup-release_out c out ∙ found, le)

more-IsAnchored :
    (journal : ℕ → Option Bytes) (held more : List Bytes) (k : ℕ)
    → IsAnchoredBelow journal held k
    → IsAnchoredBelow journal (more ++ held) k
more-IsAnchored journal held more k h i c lt at = rw elem-append (ground (arith, h i c lt at))

more-IsComplete :
    (journal : ℕ → Option Bytes) (held more : List Bytes) (n : ℕ) (s : Stamper)
    → IsComplete journal held n s
    → IsComplete journal (more ++ held) n s
more-IsComplete journal held more n s h = record {
  indexed = λ i c lt e. wider c i (h.indexed i c lt e);
  outstanding = h.outstanding;
  below = h.below;
}
  where
    wider :
        (c : Bytes) (i : ℕ)
        → (elem c held ≡ true) ⊎ ((j : ℕ) × (lookup c s.commitment_idxs ≡ some j) × (j ≤ i))
        → (elem c (more ++ held) ≡ true)
          ⊎ ((j : ℕ) × (lookup c s.commitment_idxs ≡ some j) × (j ≤ i))
    wider c i (inl there) = inl (rw elem-append (ground (arith, there)))
    wider c i (inr found) = inr found

retired-IsComplete :
    (journal : ℕ → Option Bytes) (nodes : List Bytes) (height : ℕ) (tx : TimestampTx) (s : Stamper)
    (cal : Calendar)
    → NatDict.lookup height s.txs_waiting_for_confirmation ≡ some tx
    → IsSound journal s cal
    → IsComplete journal
        (tx.commitments ++ (nodes ++ cal.held))
        s.journal_cursor
        (retire_tree height tx s)
retired-IsComplete journal nodes height tx s cal at h =
    retire_tree-IsComplete journal (nodes ++ cal.held) s.journal_cursor height tx s at
      (more-IsComplete journal cal.held nodes s.journal_cursor s h.complete)

retired-IsAnchored :
    (journal : ℕ → Option Bytes) (nodes : List Bytes) (tx : TimestampTx) (s : Stamper)
    (cal : Calendar)
    → IsSound journal s cal
    → IsAnchoredBelow journal (tx.commitments ++ (nodes ++ cal.held)) (checkpoint_after tx s)
retired-IsAnchored journal nodes tx s cal h =
    checkpoint_after-IsAnchored journal (nodes ++ cal.held) tx s
      (more-IsComplete journal cal.held nodes s.journal_cursor s h.complete)

saved-IsSound :
    (journal : ℕ → Option Bytes) (nodes : List Bytes) (writes : Bool) (height : ℕ)
    (tx : TimestampTx) (s : Stamper) (cal : Calendar)
    → NatDict.lookup height s.txs_waiting_for_confirmation ≡ some tx
    → IsSound journal s cal
    → IsSound journal (retire_tree height tx s) (
        write_known_good writes
          (checkpoint_after tx s)
          (save_timestamps nodes tx (checkpoint_after tx s) cal))
saved-IsSound journal nodes true height tx s cal at h = record {
  complete = unfold retire_tree in retired-IsComplete journal nodes height tx s cal at h;
  watermark = retired-IsAnchored journal nodes tx s cal h;
  known_good = λ k e.
      subst (IsAnchoredBelow journal (tx.commitments ++ (nodes ++ cal.held)))
        (some-injective (checkpoint_after tx s) k e) (retired-IsAnchored journal nodes tx s cal h);
}
saved-IsSound journal nodes false height tx s cal at h = record {
  complete = unfold retire_tree in retired-IsComplete journal nodes height tx s cal at h;
  watermark = retired-IsAnchored journal nodes tx s cal h;
  known_good = λ k e.
      more-IsAnchored journal (nodes ++ cal.held) tx.commitments k
        (more-IsAnchored journal cal.held nodes k (h.known_good k e));
}

-- The stamper and its calendar, as the save loop passes them on.
abbrev pub IsSoundPair : (ℕ → Option Bytes) → Stamper × Calendar → Type 0
IsSoundPair journal (s, cal) = IsSound journal s cal

pub save_found-IsSound :
    (journal : ℕ → Option Bytes) (disk : SaveDisk) (height : ℕ) (o : Option TimestampTx)
    (s : Stamper) (cal : Calendar)
    → NatDict.lookup height s.txs_waiting_for_confirmation ≡ o
    → IsSound journal s cal
    → IsSoundPair journal (save_found disk height o (s, cal))
save_found-IsSound journal disk height none s cal at h = h
save_found-IsSound journal disk height (some tx) s cal at h =
    elim (Bool-cases (disk.saves height)) [
      | inl saved ↦
          rw saved (
            saved-IsSound journal (disk.nodes height) (disk.checkpoints height) height tx s cal at
              h)
      | inr failed ↦ rw failed h
    ]

pub save_trees-IsSound :
    (journal : ℕ → Option Bytes) (disk : SaveDisk) (heights : List ℕ) (sc : Stamper × Calendar)
    → IsSoundPair journal sc
    → IsSoundPair journal (save_trees disk heights sc)
unfolding save_trees
save_trees-IsSound journal disk [] sc h = h
save_trees-IsSound journal disk (k ∷ ks) (s, cal) h =
    save_trees-IsSound journal disk ks (save_tree disk k (s, cal)) (
      unfold save_tree in
      save_found-IsSound journal disk k (NatDict.lookup k s.txs_waiting_for_confirmation) s cal refl
        h)

-- Where no entry is lost and the watermark and the checkpoint lie above anchored entries only, the
-- same holds after the save of the mature trees, whichever of its saves and checkpoint writes fail.
pub save_mature_trees-IsSound :
    (journal : ℕ → Option Bytes) (disk : SaveDisk) (best_height min_confirmations : ℕ) (s : Stamper)
    (cal : Calendar)
    → IsSound journal s cal
    → IsSoundPair journal (save_mature_trees disk best_height min_confirmations (s, cal))
unfolding save_mature_trees
save_mature_trees-IsSound journal disk best_height min_confirmations s cal h =
    save_trees-IsSound journal disk
      (due best_height min_confirmations s.txs_waiting_for_confirmation) (s, cal) h
