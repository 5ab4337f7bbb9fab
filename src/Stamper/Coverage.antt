-- ===== src/Stamper/Coverage.antt =====
-- otsserver/stamper.py: the journal entries behind the cursor of `__loop`.
use Prim.Native.Nat.{zero, suc}
use mathlib.Core.Option.{some-injective}
use opentimestamps_server.Prelude.{
  ℕ, ◌+◌, ◌≤◌, ◌<◌, ◌≡◌, refl, ap, ◌∙◌, sym, subst, Bool, true, false, Option, none, some, List,
  Bytes, bytes_eq_iff, bytes_eq_refl, elem, elem-append, length, ltb, arith, is_some, Bool-cases,
  Option-cases, inl, inr, ◌⊎◌, ℕ_discrete,
}
use opentimestamps_server.Prelude.Dict.{
  Dict, lookup, lookup-insert, Values, Values-lookup, Values-insert, Values-imp,
}
use opentimestamps_server.Prelude.NatDict
use opentimestamps_server.Stamper.{Stamper, TimestampTx, add}
use opentimestamps_server.Stamper.Fill.{
  Read, entry, key_error, raises, Reads, set_default, take_up, fill_one, fill, fill_pending, member,
  of_read,
}

-- Where a commitment is that is not in the database yet.
abbrev pub IsOutstanding : Bytes → Stamper → Type 0
IsOutstanding c s =
    (elem c s.pending_commitments ≡ true)
    ⊎ ((h : ℕ) × (t : TimestampTx) × (NatDict.lookup h s.txs_waiting_for_confirmation ≡ some t)
        × (elem c t.commitments ≡ true))

-- The scan stands at `n` in the journal, and the database holds `held`. Every entry below `n` is
-- held, or has an index on record that is no higher than its own; every commitment with an index
-- on record is outstanding; and every index on record lies below `n`.
pub record IsComplete (journal : ℕ → Option Bytes) (held : List Bytes) (n : ℕ) (s : Stamper)
    : Type 0 where
  pub indexed :
      (i : ℕ) (c : Bytes)
      → i < n
      → journal i ≡ some c
      → (elem c held ≡ true) ⊎ ((j : ℕ) × (lookup c s.commitment_idxs ≡ some j) × (j ≤ i))
  pub outstanding : (c : Bytes) (j : ℕ) → lookup c s.commitment_idxs ≡ some j → IsOutstanding c s
  pub below : Values (λ j. j < n) s.commitment_idxs

-- The reads tell the journal and the database as they are, where they do not raise.
pub record IsFaithful (journal : ℕ → Option Bytes) (held : List Bytes) (r : Reads) : Type 0 where
  pub entries : (i : ℕ) (c : Bytes) → r.journal i ≡ entry c → journal i ≡ some c
  pub members : (c : Bytes) (b : Bool) → r.in_calendar c ≡ some b → elem c held ≡ b

pub elem-add_self : (c : Bytes) (set : List Bytes) → elem c (add set c) ≡ true
unfolding add
elem-add_self c set = elim (Bool-cases (elem c set)) [
  | inl there ↦ rw there there
  | inr new ↦ rw new (rw elem-append (rw new (unfold elem in rw bytes_eq_refl refl)))
]

pub elem-add_old : (c d : Bytes) (set : List Bytes) → elem c set ≡ true → elem c (add set d) ≡ true
unfolding add
elem-add_old c d set h = elim (Bool-cases (elem d set)) [
  | inl there ↦ rw there h
  | inr new ↦ rw new (rw elem-append (rw h refl))
]

cong_lookup : (c d : Bytes) (m : Dict ℕ) → c ≡ d → lookup c m ≡ lookup d m
cong_lookup c d m e = ap (λ z. lookup z m) e

-- An index on record is kept, and so is the lowest one.
set_default-keeps :
    (c d : Bytes) (idx j : ℕ) (m : Dict ℕ)
    → lookup d m ≡ some j
    → lookup d (set_default c idx m) ≡ some j
set_default-keeps c d idx j m h = elim (Bool-cases (is_some (lookup c m))) [
  | inl old ↦ rw old h
  | inr new ↦
      rw new (lookup-insert c d idx m ∙ (ground (arith, bytes_eq_iff c d, cong_lookup c d m)))
]

set_default_self :
    (c : Bytes) (idx : ℕ) (m : Dict ℕ) (o : Option ℕ)
    → lookup c m ≡ o
    → (j : ℕ) × (lookup c (set_default c idx m) ≡ some j) × ((j ≡ idx) ⊎ (lookup c m ≡ some j))
set_default_self c idx m none h =
    (idx, rw h (lookup-insert c c idx m ∙ rw bytes_eq_refl refl), inl refl)
set_default_self c idx m (some j) h = (j, rw h h, inr h)

set_default-inv :
    (c d : Bytes) (idx j : ℕ) (m : Dict ℕ)
    → lookup d (set_default c idx m) ≡ some j
    → (lookup d m ≡ some j) ⊎ ((c ≡ d) × (j ≡ idx))
set_default-inv c d idx j m h = elim (Bool-cases (is_some (lookup c m))) [
  | inl old ↦ inl (rw old at h)
  | inr new ↦ ground (arith, lookup-insert c d idx m, bytes_eq_iff c d)
]

module _ (journal : ℕ → Option Bytes) (held : List Bytes) (r : Reads)
    (f : IsFaithful journal held r) where
  -- An entry that the database holds is passed over.
  skip-IsComplete :
      (n : ℕ) (c : Bytes) (s : Stamper)
      → journal n ≡ some c
      → elem c held ≡ true
      → IsComplete journal held n s
      → IsComplete journal held (n + 1) s
  skip-IsComplete n c s here there h = record {
    indexed = λ i d lt at. elim (ℕ_discrete i n) [
      | yes e ↦ inl (
          subst (λ z. elem z held ≡ true) (some-injective c d (sym here ∙ sym (ap journal e) ∙ at))
            there)
      | no ne ↦ h.indexed i d (omega arith) at
    ];
    outstanding = h.outstanding;
    below =
        Values-imp (λ j. j < n) (λ j. j < n + 1) s.commitment_idxs (λ j lt. omega arith) h.below;
  }

  take_up-IsComplete :
      (n : ℕ) (c : Bytes) (s : Stamper)
      → journal n ≡ some c
      → IsComplete journal held n s
      → IsComplete journal held (n + 1) (take_up r n c s)
  unfolding take_up
  take_up-IsComplete n c s here h = record {
    indexed = λ i d lt at. elim (ℕ_discrete i n) [
      | yes e ↦ inr (
          first i d e at (set_default_self c n s.commitment_idxs (lookup c s.commitment_idxs) refl))
      | no ne ↦ kept i d (h.indexed i d (omega arith) at)
    ];
    outstanding = λ d j e. moved d j (set_default-inv c d n j s.commitment_idxs e);
    below = lower;
  }
    where
      idxs : Dict ℕ
      idxs = set_default c n s.commitment_idxs

      first :
          (i : ℕ) (d : Bytes)
          → i ≡ n
          → journal i ≡ some d
          → ((j : ℕ) × (lookup c idxs ≡ some j) × ((j ≡ n) ⊎ (lookup c s.commitment_idxs ≡ some j)))
          → (j : ℕ) × (lookup d idxs ≡ some j) × (j ≤ i)
      first i d e at (j, found, inl new) = (
        j,
        subst (λ z. lookup z idxs ≡ some j)
            (some-injective c d (sym here ∙ sym (ap journal e) ∙ at)) found,
        omega arith,
      )
      first i d e at (j, found, inr old) = (
        j,
        subst (λ z. lookup z idxs ≡ some j)
            (some-injective c d (sym here ∙ sym (ap journal e) ∙ at)) found,
        omega (arith, Values-lookup (λ k. k < n) c j s.commitment_idxs h.below old),
      )

      kept :
          (i : ℕ) (d : Bytes)
          → (elem d held ≡ true) ⊎ ((j : ℕ) × (lookup d s.commitment_idxs ≡ some j) × (j ≤ i))
          → (elem d held ≡ true) ⊎ ((j : ℕ) × (lookup d idxs ≡ some j) × (j ≤ i))
      kept i d (inl there) = inl there
      kept i d (inr (j, found, le)) = inr (j, set_default-keeps c d n j s.commitment_idxs found, le)

      older : (d : Bytes) → IsOutstanding d s → IsOutstanding d (take_up r n c s)
      older d (inl there) = inl (elem-add_old d c s.pending_commitments there)
      older d (inr tree) = inr tree

      moved :
          (d : Bytes) (j : ℕ)
          → (lookup d s.commitment_idxs ≡ some j) ⊎ ((c ≡ d) × (j ≡ n))
          → IsOutstanding d (take_up r n c s)
      moved d j (inl old) = older d (h.outstanding d j old)
      moved d j (inr (same, _)) = inl (
          subst (λ z. elem z (add s.pending_commitments c) ≡ true) same
            (elem-add_self c s.pending_commitments))

      wider : Values (λ j. j < n + 1) s.commitment_idxs
      wider =
          Values-imp (λ j. j < n) (λ j. j < n + 1) s.commitment_idxs (λ j lt. omega arith) h.below

      lower : Values (λ j. j < n + 1) idxs
      lower = elim (Bool-cases (is_some (lookup c s.commitment_idxs))) [
        | inl old ↦ rw old wider
        | inr new ↦
            rw new (Values-insert (λ j. j < n + 1) c n s.commitment_idxs wider (omega arith))
      ]

  member-IsComplete :
      (n : ℕ) (c : Bytes) (o : Option Bool) (s s' : Stamper)
      → journal n ≡ some c
      → r.in_calendar c ≡ o
      → member r n c o s ≡ some s'
      → IsComplete journal held n s
      → IsComplete journal held (n + 1) s'
  member-IsComplete n c none s s' here o e h = cc
  member-IsComplete n c (some true) s s' here o e h =
      subst (IsComplete journal held (n + 1)) (some-injective s s' e)
        (skip-IsComplete n c s here (f.members c true o) h)
  member-IsComplete n c (some false) s s' here o e h =
      subst (IsComplete journal held (n + 1)) (some-injective (take_up r n c s) s' e)
        (take_up-IsComplete n c s here h)

  of_read-IsComplete :
      (n : ℕ) (rd : Read) (s s' : Stamper)
      → r.journal n ≡ rd
      → of_read r n rd s ≡ some s'
      → IsComplete journal held n s
      → IsComplete journal held (n + 1) s'
  of_read-IsComplete n (entry c) s s' rd e h =
      member-IsComplete n c (r.in_calendar c) s s' (f.entries n c rd) refl e h
  of_read-IsComplete n key_error s s' rd e h = cc
  of_read-IsComplete n raises s s' rd e h = cc

  fill_from-IsComplete :
      (fuel max_pending n : ℕ) (s : Stamper)
      → IsComplete journal held n s
      → IsComplete journal held (fill fuel max_pending r n s).0 (fill fuel max_pending r n s).1
  unfolding fill
  fill_from-IsComplete zero max_pending n s h = h
  fill_from-IsComplete (suc fuel) max_pending n s h =
      elim (Bool-cases (ltb (length s.pending_commitments) max_pending)) [
        | inr full ↦ rw (full, fill) h
        | inl room ↦
            rw (room, fill)
              (elim (Option-cases (fill_one r n s)) [
                | inl ended ↦ rw (ended, fill) h
                | inr (s', went) ↦
                    rw (went, fill)
                      (fill_from-IsComplete fuel max_pending (n + 1) s'
                        (unfold fill_one in of_read-IsComplete n (r.journal n) s s' refl went h))
              ])
      ]

  -- A turn's read of the journal, ended by its end, by `max_pending` or by a read that raises,
  -- leaves every entry behind the new cursor in the database or outstanding, where every entry
  -- behind the old cursor was. It holds for every number of rounds.
  pub fill_pending-IsComplete :
      (fuel max_pending : ℕ) (s : Stamper)
      → IsComplete journal held s.journal_cursor s
      → let s' = fill_pending fuel max_pending r s in IsComplete journal held s'.journal_cursor s'
  unfolding fill_pending
  fill_pending-IsComplete fuel max_pending s h =
      let done = fill_from-IsComplete fuel max_pending s.journal_cursor s h in
      record { indexed = done.indexed; outstanding = done.outstanding; below = done.below }
