-- ===== src/Journal/Writes.antt =====
-- otsserver/calendar.py: `JournalWriter.submit` on the list of entries.

use opentimestamps_server.Prelude.{
  ℕ, zero, suc, ◌-◌, ◌%◌, ◌≡◌, ◌≢◌, refl, ap, ◌∙◌, sym, subst, List, [], ◌∷◌, ◌++◌, Option, none,
  some, false, Bytes, bytes_eq, bytes_eq_refl, length, take, drop, replicate, get_elem?,
  length-append, take_all, take-append_le, drop-append_ge, arith, get_elem?-append_length,
  ℕ_discrete, ==_iff, ==-false, ◌==◌, if◌then◌else◌,
}
use mathlib.Core.Option
use opentimestamps_server.Journal.{
  commitment_size, hmac_size, null_hmac, strip, get_item, JournalWriter, Submitted, returned,
  value_error, Disk, synced, pad, submit, submit_padded,
}
use opentimestamps_server.Journal.Entries.{entries, get_item-entries, entries-snoc}

-- The journal file holds whole entries only.
abbrev pub IsWhole : Bytes → Type 0
IsWhole file = length file % commitment_size ≡ 0

pub length-pad : (c p : Bytes) → pad c ≡ some p → length p ≡ commitment_size
unfolding pad
length-pad c p h = ground (arith, length-append c (replicate hmac_size 0))

-- How a submission of a commitment ends, by the commitment at its full size.
abbrev pub Appended : Option Bytes → JournalWriter → Submitted × JournalWriter → Type 0
Appended none w (r, w') = (r ≡ value_error) × (w' ≡ w)
Appended (some p) w (r, w') =
    (r ≡ returned) × (entries w'.file ≡ entries w.file ++ p ∷ []) × IsWhole w'.file

submit_padded_appends :
    (side : Disk) (w : JournalWriter) (o : Option Bytes) (records : Option ℕ)
    → IsWhole w.file
    → ((p : Bytes) → o ≡ some p → length p ≡ commitment_size)
    → Appended o w (submit_padded synced side w o records)
unfolding submit
submit_padded_appends side w none records whole full = (refl, refl)
submit_padded_appends side w (some p) records whole full =
    rw ((==_iff (length w.file % commitment_size) 0).1 whole) (
      refl,
      entries-snoc w.file p whole (full p refl),
      omega (arith, length-append w.file p, full p refl),
    )

pub submit_padded-Appended :
    (side : Disk) (w : JournalWriter) (c : Bytes) (records : Option ℕ)
    → IsWhole w.file
    → Appended (pad c) w (submit synced side w c records)
unfolding submit
submit_padded-Appended side w c records whole =
    submit_padded_appends side w (pad c) records whole (length-pad c)

pub pad_whole : (c : Bytes) → length c ≡ 44 → pad c ≡ some c
unfolding pad
pad_whole c e = ground (arith, e)

pad_short : (c : Bytes) → length c ≡ 36 → pad c ≡ some (c ++ 0 ∷ 0 ∷ 0 ∷ 0 ∷ 0 ∷ 0 ∷ 0 ∷ 0 ∷ [])
unfolding pad
pad_short c e = ground (arith, e)

pad_other : (c : Bytes) → length c ≢ 36 → length c ≢ 44 → pad c ≡ none
unfolding pad
pad_other c short whole = ground (arith, short, whole)

-- One entry more, of 44 bytes, and the call returned.
pub record IsOneMore (w : JournalWriter) (entry : Bytes) (out : Submitted × JournalWriter)
    : Type 0 where
  pub returns : out.0 ≡ returned
  pub appended : entries out.1.file ≡ entries w.file ++ entry ∷ []
  pub whole : length out.1.file % 44 ≡ 0

-- How a submission ends, by the length of the commitment.
pub record IsSubmitted (w : JournalWriter) (c : Bytes) (out : Submitted × JournalWriter)
    : Type 0 where
  pub whole : length c ≡ 44 → IsOneMore w c out
  pub short : length c ≡ 36 → IsOneMore w (c ++ 0 ∷ 0 ∷ 0 ∷ 0 ∷ 0 ∷ 0 ∷ 0 ∷ 0 ∷ []) out
  pub other : length c ≢ 36 → length c ≢ 44 → (out.0 ≡ value_error) × (out.1 ≡ w)

one_more :
    (w : JournalWriter) (p : Bytes) (out : Submitted × JournalWriter)
    → Appended (some p) w out
    → IsOneMore w p out
one_more w p (r, v) h = record { returns = h.0; appended = h.1; whole = h.2 }

-- On a journal of whole entries, a submission that the disk takes: a commitment of 44 bytes is
-- appended as exactly one entry, one of 36 bytes with eight zero bytes behind it, and the journal
-- stays one of whole entries; a commitment of another length is refused with the `ValueError` and
-- changes neither file.
pub submit_appends :
    (side : Disk) (w : JournalWriter) (c : Bytes) (records : Option ℕ)
    → IsWhole w.file
    → IsSubmitted w c (submit synced side w c records)
submit_appends side w c records whole = record {
  whole = λ e. one_more w c out (subst (λ o. Appended o w out) (pad_whole c e) done);
  short = λ e.
      one_more w (c ++ 0 ∷ 0 ∷ 0 ∷ 0 ∷ 0 ∷ 0 ∷ 0 ∷ 0 ∷ []) out
        (subst (λ o. Appended o w out) (pad_short c e) done);
  other = λ short long. refused out (subst (λ o. Appended o w out) (pad_other c short long) done);
}
  where
    out : Submitted × JournalWriter
    out = submit synced side w c records

    done : Appended (pad c) w out
    done = submit_padded-Appended side w c records whole

    refused : (o : Submitted × JournalWriter) → Appended none w o → (o.0 ≡ value_error) × (o.1 ≡ w)
    refused (r, v) h = h

strip-null : (c : Bytes) → length c ≡ 36 → strip (c ++ replicate hmac_size 0) ≡ c
unfolding strip
strip-null c e =
    ap (λ b. if b then take 36 (c ++ replicate 8 0) else c ++ replicate 8 0)
      (ap (λ z. bytes_eq z (replicate 8 0))
          (drop-append_ge 36 c (replicate 8 0) (omega arith)
            ∙ ap (λ n. drop n (replicate 8 0)) (no_rest e))
        ∙ bytes_eq_refl (replicate 8 0))
    ∙ take-append_le 36 c (replicate 8 0) (omega arith)
    ∙ take_all 36 c (omega arith)
  where
    no_rest : {n : ℕ} → n ≡ 36 → 36 - n ≡ 0
    no_rest h = omega arith

strip-kept : (c : Bytes) → null_hmac c ≡ false → strip c ≡ c
unfolding strip
strip-kept c h = rw h refl

-- Stripping undoes the padding.
strip-pad :
    (c p : Bytes)
    → pad c ≡ some p
    → (length c ≡ commitment_size → null_hmac c ≡ false)
    → strip p ≡ c
unfolding pad
strip-pad c p h own = ground (arith, strip-null c, strip-kept c, own)

get_elem?-snoc_ne {ℓ} :
    {A : Type ℓ} (xs : List A) (y : A) (i : ℕ)
    → i ≢ length xs
    → get_elem? (xs ++ y ∷ []) i ≡ get_elem? xs i
get_elem?-snoc_ne [] y zero h = absurd (h refl)
get_elem?-snoc_ne [] y (suc i) h = refl
get_elem?-snoc_ne (x ∷ xs) y zero h = refl
get_elem?-snoc_ne (x ∷ xs) y (suc i) h = get_elem?-snoc_ne xs y i (λ e. h (ap suc e))

-- After a submission that succeeded, the entry at the end of the journal reads back as the
-- submitted commitment, and every other index reads as before. A commitment of 44 bytes must not
-- end in a null HMAC: it would come back without it.
pub get_item-submit :
    (side : Disk) (w : JournalWriter) (c p : Bytes) (records : Option ℕ) (i : ℕ)
    → IsWhole w.file
    → pad c ≡ some p
    → (length c ≡ commitment_size → null_hmac c ≡ false)
    → get_item (submit synced side w c records).1.file i
      ≡ (if i == length (entries w.file) then some c else get_item w.file i)
get_item-submit side w c p records i whole padded own =
    get_item-entries (submit synced side w c records).1.file i
    ∙ ap (λ es. Option.map strip (get_elem? es i)) appended
    ∙ elim (ℕ_discrete i (length (entries w.file))) [
      | yes e ↦ rw ((==_iff i (length (entries w.file))).1 e) (
          ap (λ k. Option.map strip (get_elem? (entries w.file ++ p ∷ []) k)) e
          ∙ ap (Option.map strip) (get_elem?-append_length (entries w.file) p)
          ∙ ap some (strip-pad c p padded own))
      | no ne ↦ rw (==-false i (length (entries w.file)) ne) (
          ap (Option.map strip) (get_elem?-snoc_ne (entries w.file) p i ne)
          ∙ sym (get_item-entries w.file i))
    ]
  where
    appended : entries (submit synced side w c records).1.file ≡ entries w.file ++ p ∷ []
    appended =
        (subst (λ o. Appended o w (submit synced side w c records)) padded
          (submit_padded-Appended side w c records whole)).1
