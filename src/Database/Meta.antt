-- ===== src/Database/Meta.antt =====
-- otsserver/calendar.py: the meta keys of `LevelDbCalendar`, and its reopening.
use opentimestamps_server.Prelude.{
  ℕ, ◌^◌, ◌<◌, ◌≡◌, refl, ap, ◌∙◌, sym, true, false, some, Bytes, starts_with, is_some, bytes_eq,
  bytes_eq_iff, bytes_eq_refl, length, ==-false, arith, Bool-cases, inl, inr,
}
use opentimestamps_server.Prelude.Dict.{Dict, lookup, insert, lookup-insert}
use opentimestamps_server.Checkpoint.{decimal}
use opentimestamps_server.Checkpoint.Digits.{int_from-decimal, digits-decimal, length-decimal}
use opentimestamps_server.Database.{
  LevelDbCalendar, meta_generation, meta_watermark, meta_prefix, adopt_generation, open_database,
  contains, read_watermark,
}

lookup-other {ℓ} :
    {V : Type ℓ} (k c : Bytes) (v : V) (d : Dict V)
    → bytes_eq k c ≡ false
    → lookup c (insert k v d) ≡ lookup c d
lookup-other k c v d h = lookup-insert k c v d ∙ rw h refl

outside :
    (k c : Bytes)
    → starts_with k meta_prefix ≡ true
    → starts_with c meta_prefix ≡ false
    → bytes_eq k c ≡ false
outside k c meta plain = elim (Bool-cases (bytes_eq k c)) [
  | inl same ↦
      absurd (both (sym (ap (λ z. starts_with z meta_prefix) ((bytes_eq_iff k c).0 same)) ∙ meta))
  | inr other ↦ other
]
  where
    both : starts_with c meta_prefix ≡ true → ⊥
    both e = cc

read_back : (n : ℕ) → n < 10 ^ 20 → read_watermark (some (decimal n)) ≡ some n
unfolding read_watermark
read_back n fits =
    rw (==-false (length (decimal n)) 0 (omega (arith, length-decimal n fits)))
      (rw (digits-decimal n) (ap some (int_from-decimal n)))

meta_w : starts_with meta_watermark meta_prefix ≡ true
unfolding starts_with
meta_w = refl

meta_g : starts_with meta_generation meta_prefix ≡ true
unfolding starts_with
meta_g = refl

differs : bytes_eq meta_watermark meta_generation ≡ false
unfolding bytes_eq
differs = refl

-- A database that is given its generation and its watermark holds the same commitments as before:
-- its own keys are none of them.
pub contains-adopt_generation :
    (fresh msg : Bytes) (watermark : ℕ) (d : LevelDbCalendar)
    → contains (adopt_generation fresh watermark d) msg ≡ contains d msg
unfolding contains adopt_generation
contains-adopt_generation fresh msg watermark d = elim (Bool-cases (starts_with msg meta_prefix)) [
  | inl meta ↦ rw meta refl
  | inr plain ↦ rw plain (
      ap is_some (
        lookup-other meta_watermark msg (decimal watermark) (insert meta_generation fresh d.db)
          (outside meta_watermark msg meta_w plain)
        ∙ lookup-other meta_generation msg fresh d.db (outside meta_generation msg meta_g plain)))
]

-- A database that was given its generation, with a watermark below 10 ^ 20, is opened again with
-- that generation, that watermark and everything that it held, and is given no other.
pub open_database-adopt_generation :
    (fresh other : Bytes) (watermark : ℕ) (d : LevelDbCalendar)
    → watermark < 10 ^ 20
    → open_database other (adopt_generation fresh watermark d).db
      ≡ some (adopt_generation fresh watermark d)
unfolding open_database adopt_generation
open_database-adopt_generation fresh other watermark d h =
    rw found_generation (rw found_watermark (rw (read_back watermark h) refl))
  where
    with_one : Dict Bytes
    with_one = insert meta_generation fresh d.db

    found_generation :
        lookup meta_generation (insert meta_watermark (decimal watermark) with_one) ≡ some fresh
    found_generation =
        lookup-other meta_watermark meta_generation (decimal watermark) with_one differs
        ∙ lookup-insert meta_generation meta_generation fresh d.db
        ∙ rw bytes_eq_refl refl

    found_watermark :
        lookup meta_watermark (insert meta_watermark (decimal watermark) with_one)
        ≡ some (decimal watermark)
    found_watermark =
        lookup-insert meta_watermark meta_watermark (decimal watermark) with_one
        ∙ rw bytes_eq_refl refl
