-- ===== src/Startup/Sidecar.antt =====
-- otsserver/calendar.py: `Calendar.__check_counts` on the files that the writers leave.
use opentimestamps_server.Prelude.{
  ℕ, zero, suc, ◌+◌, ◌*◌, ◌/◌, ◌%◌, ◌≤◌, ◌≡◌, ◌^◌, refl, Option, none, some, ◌++◌, Bytes, length,
  take, max, length-pwrite, length-append, length-take, ltb, ◌==◌, if◌then◌else◌, arith, Bool-cases,
  inl, inr,
}
use opentimestamps_server.Counts.{pack, put, put_torn, known_zero}
use opentimestamps_server.Counts.Slots.{length-pack}
use opentimestamps_server.Journal.{
  commitment_size, JournalWriter, Disk, synced, fails_after, put_records, pad, submit,
  submit_padded,
}
use opentimestamps_server.Journal.Writes.{length-pad}
use opentimestamps_server.Startup.{counted_of, check_counts, passes}

-- The sidecar, if there is one, holds a count for no entry that the journal does not hold.
abbrev pub IsCovered : Option Bytes → Bytes → Type 0
IsCovered none file = Unit {0}
IsCovered (some side) file = counted_of side ≤ length file / commitment_size

length-put : (file : Bytes) (idx n : ℕ) → length (put file idx n) ≤ max (length file) (idx * 4 + 4)
unfolding put
length-put file idx n = elim (Bool-cases (ltb n (2 ^ 32))) [
  | inl fits ↦ rw fits (omega (arith, length-pwrite file (pack n) (idx * 4), length-pack n))
  | inr big ↦ rw big (omega arith)
]

length-put_torn :
    (k : ℕ) (file : Bytes) (idx n : ℕ)
    → length (put_torn k file idx n) ≤ max (length file) (idx * 4 + 4)
unfolding put_torn
length-put_torn zero file idx n = omega arith
length-put_torn (suc k) file idx n = elim (Bool-cases (ltb n (2 ^ 32))) [
  | inl fits ↦ rw fits (
      omega (
        arith,
        length-pwrite file (take (suc k) (pack n)) (idx * 4),
        length-take (suc k) (pack n),
        length-pack n,
      ))
  | inr big ↦ rw big (omega arith)
]

put_records-IsCovered :
    (disk : Disk) (side : Option Bytes) (file c : Bytes) (records : Option ℕ)
    → IsCovered side file
    → length c ≡ commitment_size
    → IsCovered (put_records disk side (length file / commitment_size) records) (file ++ c)
unfolding put_records
put_records-IsCovered disk none file c records h e = tt
put_records-IsCovered disk (some side) file c none h e = omega (arith, length-append file c)
put_records-IsCovered synced (some side) file c (some n) h e = omega (
  arith,
  length-append file c,
  length-put side (length file / commitment_size) (if n == 0 then known_zero else n),
)
put_records-IsCovered (fails_after k) (some side) file c (some n) h e = omega (
  arith,
  length-append file c,
  length-put_torn k side (length file / commitment_size) (if n == 0 then known_zero else n),
)

more-IsCovered :
    (side : Option Bytes) (file more : Bytes) → IsCovered side file → IsCovered side (file ++ more)
more-IsCovered none file more h = tt
more-IsCovered (some side) file more h = omega (arith, length-append file more)

submit_padded-IsCovered :
    (disk put_disk : Disk) (w : JournalWriter) (o : Option Bytes) (records : Option ℕ)
    → ((p : Bytes) → o ≡ some p → length p ≡ commitment_size)
    → IsCovered w.record_counts w.file
    → let (r, w') = submit_padded disk put_disk w o records in IsCovered w'.record_counts w'.file
unfolding submit
submit_padded-IsCovered disk put_disk w none records full h = h
submit_padded-IsCovered synced put_disk w (some c) records full h =
    elim (Bool-cases (length w.file % commitment_size == 0)) [
      | inl whole ↦
          rw whole (put_records-IsCovered put_disk w.record_counts w.file c records h (full c refl))
      | inr part ↦ rw part h
    ]
submit_padded-IsCovered (fails_after n) put_disk w (some c) records full h =
    elim (Bool-cases (length w.file % commitment_size == 0)) [
      | inl whole ↦ rw whole (more-IsCovered w.record_counts w.file (take n c) h)
      | inr part ↦ rw part h
    ]

-- However a submission ends, refused, torn in the journal or torn in the sidecar, the sidecar
-- still holds no count for an entry that the journal lacks.
pub submit-IsCovered :
    (disk put_disk : Disk) (w : JournalWriter) (c : Bytes) (records : Option ℕ)
    → IsCovered w.record_counts w.file
    → let (r, w') = submit disk put_disk w c records in IsCovered w'.record_counts w'.file
unfolding submit
submit-IsCovered disk put_disk w c records h =
    submit_padded-IsCovered disk put_disk w (pad c) records (length-pad c) h

covered-passes :
    (side : Option Bytes) (file : Bytes)
    → IsCovered side file
    → check_counts side (some file) ≡ passes tt
unfolding check_counts
covered-passes none file h = refl
covered-passes (some side) file h = ground arith

-- The next start's check of the sidecar against the journal passes on the files that a
-- submission leaves, where it would have passed on those that it found.
pub check_counts-submit :
    (disk put_disk : Disk) (w : JournalWriter) (c : Bytes) (records : Option ℕ)
    → check_counts w.record_counts (some w.file) ≡ passes tt
    → let (r, w') = submit disk put_disk w c records in
      check_counts w'.record_counts (some w'.file) ≡ passes tt
check_counts-submit disk put_disk w c records h =
    let w' = (submit disk put_disk w c records).1 in
    covered-passes w'.record_counts w'.file
      (submit-IsCovered disk put_disk w c records (covered w.record_counts w.file h))
  where
    covered :
        (side : Option Bytes) (file : Bytes)
        → check_counts side (some file) ≡ passes tt
        → IsCovered side file
    covered none file e = tt
    covered (some side) file e = unfold check_counts in ground arith
