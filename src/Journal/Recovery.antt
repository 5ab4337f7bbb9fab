-- ===== src/Journal/Recovery.antt =====
-- otsserver/calendar.py: `JournalWriter` after a failed write, and its reopening.

use opentimestamps_server.Prelude.{
  ℕ, zero, suc, ◌-◌, ◌%◌, ◌≤◌, ◌≡◌, ◌≢◌, refl, ap, ◌∙◌, sym, subst, [], ◌∷◌, ◌++◌, Option, some,
  Bytes, length, take, replicate, length-append, length-take, length-replicate, append_assoc,
  append-nil, arith, ℕ_discrete, ==_iff, ==-false, ◌==◌, if◌then◌else◌,
}
use opentimestamps_server.Journal.{
  commitment_size, open_append, JournalWriter, os_error, Disk, fails_after, pad, submit,
  submit_padded,
}
use opentimestamps_server.Journal.Entries.{entries, entries-snoc}
use opentimestamps_server.Journal.Writes.{IsWhole, length-pad}

open_append-whole : (file : Bytes) → IsWhole file → open_append file ≡ file
unfolding open_append
open_append-whole file h = rw ((==_iff (length file % commitment_size) 0).1 h) refl

open_append-partial :
    (file : Bytes) (n : ℕ)
    → length file % commitment_size ≡ n
    → n ≢ 0
    → open_append file ≡ file ++ replicate (commitment_size - n) 0
unfolding open_append
open_append-partial file n e h = rw (e, ==-false n 0 h) refl

entry_length :
    (n : ℕ) (torn : Bytes)
    → length torn ≡ suc n
    → suc n ≤ commitment_size
    → length (torn ++ replicate (commitment_size - suc n) 0) ≡ commitment_size
entry_length n torn e h = omega (
  arith,
  length-append torn (replicate (commitment_size - suc n) 0),
  length-replicate {A = ℕ} (commitment_size - suc n) 0,
)

-- A journal of whole entries with `n` more bytes, reopened.
reopened :
    (file torn : Bytes) (n : ℕ)
    → IsWhole file
    → length torn ≡ n
    → n ≤ commitment_size
    → (entries (open_append (file ++ torn)) ≡ (
        if n == 0
        then entries file
        else entries file ++ (torn ++ replicate (commitment_size - n) 0) ∷ []))
      × IsWhole (open_append (file ++ torn))
reopened file [] zero whole e h = (
  ap entries (ap open_append (append-nil file) ∙ open_append-whole file whole),
  rw (append-nil file) (rw (open_append-whole file whole) whole),
)
reopened file (x ∷ torn) zero whole e h = absurd (omega arith)
reopened file torn (suc n) whole e h =
    rw (==-false (suc n) 0 (omega arith)) (elim (ℕ_discrete (suc n) commitment_size) [
      | yes full ↦
          let kept : open_append (file ++ torn) ≡ file ++ torn =
            open_append-whole (file ++ torn) (omega (arith, length-append file torn)) in
          let padded : torn ++ replicate (commitment_size - suc n) 0 ≡ torn =
            ap (λ k. torn ++ replicate k 0) (nothing full) ∙ append-nil torn in
          (
            ap entries kept
                ∙ entries-snoc file torn whole (omega arith)
                ∙ ap (λ z. entries file ++ z ∷ []) (sym padded),
            subst IsWhole (sym kept) (omega (arith, length-append file torn)),
          )
      | no part ↦
          let longer : open_append (file ++ torn)
              ≡ file ++ (torn ++ replicate (commitment_size - suc n) 0) =
            open_append-partial (file ++ torn) (suc n) (omega (arith, length-append file torn))
              (omega arith)
            ∙ append_assoc file torn (replicate (commitment_size - suc n) 0) in
          (
            ap entries longer
                ∙ entries-snoc file (torn ++ replicate (commitment_size - suc n) 0) whole
                    (entry_length n torn e h),
            subst IsWhole (sym longer) (
                omega (
                  arith,
                  length-append file (torn ++ replicate (commitment_size - suc n) 0),
                  entry_length n torn e h,
                )),
          )
    ])
  where
    nothing : suc n ≡ commitment_size → commitment_size - suc n ≡ 0
    nothing full = omega arith

-- A write that the disk refused after `n` bytes, and a reopening of the journal: the entries that
-- were there are unchanged, at most one is new, and the next submission starts on a whole entry.
-- The new one holds the bytes that reached the file, filled up with zeros.
pub reopen_after_failure :
    (side : Disk) (w : JournalWriter) (c p : Bytes) (records : Option ℕ) (n : ℕ)
    → IsWhole w.file
    → pad c ≡ some p
    → n ≤ commitment_size
    → let (r, w') = submit (fails_after n) side w c records in
      (r ≡ os_error)
      × (entries (open_append w'.file) ≡ (
          if n == 0
          then entries w.file
          else entries w.file ++ (take n p ++ replicate (commitment_size - n) 0) ∷ []))
      × IsWhole (open_append w'.file)
      × (w'.record_counts ≡ w.record_counts)
unfolding submit
reopen_after_failure side w c p records n whole padded h =
    rw (padded, submit_padded)
      (rw ((==_iff (length w.file % commitment_size) 0).1 whole) (
        refl,
        (reopened w.file (take n p) n whole taken h).0,
        (reopened w.file (take n p) n whole taken h).1,
        refl,
      ))
  where
    taken : length (take n p) ≡ n
    taken = omega (arith, length-take n p, length-pad c p padded)
