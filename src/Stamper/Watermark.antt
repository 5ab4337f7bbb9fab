-- ===== src/Stamper/Watermark.antt =====
-- otsserver/stamper.py: the indexes of `__checkpoint_after`.
use mathlib.Core.Option.{some-injective}
use opentimestamps_server.Prelude.{
  ℕ, ◌≤◌, ◌<◌, ◌≡◌, refl, sym, subst, true, false, Option, some, List, [], ◌∷◌, ◌++◌, Bytes,
  bytes_eq, bytes_eq_iff, elem, elem-append, arith, Bool-cases, inl, inr, ◌⊎◌, All,
}
use opentimestamps_server.Prelude.Dict.{Dict, lookup, Values}
use opentimestamps_server.Stamper.{Stamper, TimestampTx}
use opentimestamps_server.Stamper.Coverage.{IsComplete}
use opentimestamps_server.Stamper.Save.{remaining, min_or, checkpoint_after}

-- The minimum of one more index.
min_or-cons : (n i : ℕ) (is : List ℕ) → min_or n (i ∷ is) ≤ i
unfolding min_or
min_or-cons n i [] = omega arith
min_or-cons n i (j ∷ is) = omega arith

min_or-tail : (n i j : ℕ) (is : List ℕ) → min_or n (i ∷ j ∷ is) ≤ min_or n (j ∷ is)
unfolding min_or
min_or-tail n i j is = omega arith

In : ℕ → List ℕ → Type 0
In j [] = ⊥
In j (i ∷ is) = (i ≡ j) ⊎ In j is

min_or-le : (n j : ℕ) (is : List ℕ) → In j is → min_or n is ≤ j
unfolding In
min_or-le n j [] h = absurd h
min_or-le n j (i ∷ is) (inl e) = omega (arith, min_or-cons n i is)
min_or-le n j (i ∷ []) (inr h) = absurd h
min_or-le n j (i ∷ k ∷ is) (inr h) = omega (arith, min_or-tail n i k is, min_or-le n j (k ∷ is) h)

-- The minimum is no higher than the cursor, where the indexes lie below it.
min_or-bound : (n : ℕ) (is : List ℕ) → All (λ j. j < n) is → min_or n is ≤ n
unfolding min_or
min_or-bound n [] h = omega arith
min_or-bound n (i ∷ is) h = omega (arith, min_or-cons n i is)

remaining-In :
    (saved : List Bytes) (c : Bytes) (j : ℕ) (d : Dict ℕ)
    → lookup c d ≡ some j
    → elem c saved ≡ false
    → In j (remaining saved d)
unfolding In remaining lookup
remaining-In saved c j [] h out = cc
remaining-In saved c j ((k, i) ∷ d) h out = elim (Bool-cases (bytes_eq k c)) [
  | inl same ↦
      rw (subst (λ z. elem z saved ≡ false) (sym ((bytes_eq_iff k c).0 same)) out)
        (inl (some-injective i j (rw same at h)))
  | inr other ↦ elim (Bool-cases (elem k saved)) [
    | inl gone ↦ rw gone (remaining-In saved c j d (rw other at h) out)
    | inr left ↦ rw left (inr (remaining-In saved c j d (rw other at h) out))
  ]
]

remaining-below :
    (saved : List Bytes) (n : ℕ) (d : Dict ℕ)
    → Values (λ j. j < n) d
    → All (λ j. j < n) (remaining saved d)
unfolding remaining
remaining-below saved n [] h = tt
remaining-below saved n ((k, i) ∷ d) h = elim (Bool-cases (elem k saved)) [
  | inl gone ↦ rw gone (remaining-below saved n d h.1)
  | inr left ↦ rw left (h.0, remaining-below saved n d h.1)
]

-- Every entry below `k` is in the database.
abbrev pub IsAnchoredBelow : (ℕ → Option Bytes) → List Bytes → ℕ → Type 0
IsAnchoredBelow journal held k =
    (i : ℕ) (c : Bytes) → i < k → journal i ≡ some c → elem c held ≡ true

-- Once the tree's commitments are in the database, so is every entry below its checkpoint.
pub checkpoint_after-IsAnchored :
    (journal : ℕ → Option Bytes) (held : List Bytes) (tx : TimestampTx) (s : Stamper)
    → IsComplete journal held s.journal_cursor s
    → IsAnchoredBelow journal (tx.commitments ++ held) (checkpoint_after tx s)
unfolding checkpoint_after
checkpoint_after-IsAnchored journal held tx s h i c lt at =
    elim (Bool-cases (elem c tx.commitments)) [
      | inl rides ↦ rw elem-append (rw rides refl)
      | inr not_in ↦
          rw elem-append (rw not_in (before not_in (h.indexed i c (omega (arith, bound)) at)))
    ]
  where
    bound : min_or s.journal_cursor (remaining tx.commitments s.commitment_idxs) ≤ s.journal_cursor
    bound =
        min_or-bound s.journal_cursor (remaining tx.commitments s.commitment_idxs)
          (remaining-below tx.commitments s.journal_cursor s.commitment_idxs h.below)

    before :
        elem c tx.commitments ≡ false
        → (elem c held ≡ true) ⊎ ((j : ℕ) × (lookup c s.commitment_idxs ≡ some j) × (j ≤ i))
        → elem c held ≡ true
    before out (inl there) = there
    before out (inr (j, found, le)) = absurd (
        omega (
          arith,
          min_or-le s.journal_cursor j (remaining tx.commitments s.commitment_idxs)
              (remaining-In tx.commitments c j s.commitment_idxs found out),
        ))

-- The checkpoint is no higher than the cursor.
pub checkpoint_after-le :
    (journal : ℕ → Option Bytes) (held : List Bytes) (tx : TimestampTx) (s : Stamper)
    → IsComplete journal held s.journal_cursor s
    → checkpoint_after tx s ≤ s.journal_cursor
unfolding checkpoint_after
checkpoint_after-le journal held tx s h =
    min_or-bound s.journal_cursor (remaining tx.commitments s.commitment_idxs)
      (remaining-below tx.commitments s.journal_cursor s.commitment_idxs h.below)
