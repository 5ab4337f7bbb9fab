-- ===== src/Stamper/Billed.antt =====
-- otsserver/stamper.py: the sums of `__count_tree_records`.
use mathlib.Core.Option.{some-injective}
use opentimestamps_server.Prelude.{
  ℕ, ◌+◌, ◌≤◌, ◌≡◌, ◌∙◌, refl, sym, subst, Option, none, some, List, [], ◌∷◌, Bytes, bytes_eq,
  bytes_eq_iff, if◌then◌else◌, Bool-cases, inl, inr, arith,
}
use opentimestamps_server.Prelude.Dict.{lookup, lookup-insert}
use opentimestamps_server.Stamper.{Stamper}
use opentimestamps_server.Stamper.Records.{
  keep_count, read_again, count_known, added, count_tree_records,
}

unfoldable pub total : (Bytes → ℕ) → List Bytes → ℕ
total true_count [] = 0
total true_count (c ∷ cs) = true_count c + total true_count cs

-- No count that is kept, and none that the sidecar holds at an index on record, is above the
-- commitment's true one.
pub record IsCounted (true_count : Bytes → ℕ) (counts : ℕ → Option ℕ) (s : Stamper) : Type 0 where
  pub kept : (c : Bytes) (n : ℕ) → lookup c s.commitment_records ≡ some n → n ≤ true_count c
  pub on_file :
      (c : Bytes) (i n : ℕ)
      → lookup c s.commitment_idxs ≡ some i
      → counts i ≡ some n
      → n ≤ true_count c

module _ (true_count : Bytes → ℕ) (counts : ℕ → Option ℕ) where
  abbrev IsFair : Bytes → Option ℕ × Stamper → Type 0
  IsFair c (o, s) = (added o ≤ true_count c) × IsCounted true_count counts s

  keep_count-IsFair :
      (c : Bytes) (o : Option ℕ) (s : Stamper)
      → ((n : ℕ) → o ≡ some n → n ≤ true_count c)
      → IsCounted true_count counts s
      → IsFair c (keep_count c o s)
  keep_count-IsFair c none s le h = (omega arith, h)
  keep_count-IsFair c (some n) s le h = (
    le n refl,
    record {
      kept = λ d m e. held d m (sym (lookup-insert c d n s.commitment_records) ∙ e);
      on_file = h.on_file;
    },
  )
    where
      held :
          (d : Bytes) (m : ℕ)
          → (if bytes_eq c d then some n else lookup d s.commitment_records) ≡ some m
          → m ≤ true_count d
      held d m e = elim (Bool-cases (bytes_eq c d)) [
        | inl same ↦
            subst (λ z. m ≤ true_count z) ((bytes_eq_iff c d).0 same)
              (subst (λ k. k ≤ true_count c) (some-injective n m (rw same at e)) (le n refl))
        | inr other ↦ h.kept d m (rw other at e)
      ]

  read_again-IsFair :
      (c : Bytes) (o : Option ℕ) (s : Stamper)
      → lookup c s.commitment_idxs ≡ o
      → IsCounted true_count counts s
      → IsFair c (read_again counts c o s)
  read_again-IsFair c none s at h = (omega arith, h)
  read_again-IsFair c (some i) s at h =
      keep_count-IsFair c (counts i) s (λ n e. h.on_file c i n at e) h

  count_known-IsFair :
      (c : Bytes) (o : Option ℕ) (s : Stamper)
      → lookup c s.commitment_records ≡ o
      → IsCounted true_count counts s
      → IsFair c (count_known counts c o s)
  count_known-IsFair c none s at h = read_again-IsFair c (lookup c s.commitment_idxs) s refl h
  count_known-IsFair c (some n) s at h = (h.kept c n at, h)

-- Where no count is above the true one, the number of records of a tree is no higher than the sum
-- of its commitments' true counts, and the counts that the sum keeps are not above theirs either.
pub count_tree_records_undercounts :
    (true_count : Bytes → ℕ) (counts : ℕ → Option ℕ) (cs : List Bytes) (s : Stamper)
    → IsCounted true_count counts s
    → let (n, s') = count_tree_records counts cs s in
      (n ≤ total true_count cs) × IsCounted true_count counts s'
unfolding count_tree_records total
count_tree_records_undercounts true_count counts [] s h = (omega arith, h)
count_tree_records_undercounts true_count counts (c ∷ cs) s h =
    let one = count_known-IsFair true_count counts c (lookup c s.commitment_records) s refl h in
    let rest =
      count_tree_records_undercounts true_count counts cs
        (count_known counts c (lookup c s.commitment_records) s).1 one.1 in
    (omega (arith, one.0, rest.0), rest.1)
