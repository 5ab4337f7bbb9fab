-- ===== src/Counts/Readback.antt =====
-- otsserver/calendar.py: `RecordCounts` after whole writes of `RecordCountsWriter`.
use opentimestamps_server.Prelude.{
  ℕ, zero, suc, [], ◌-◌, ◌*◌, ◌%◌, ◌^◌, ◌≤◌, ◌<◌, ◌≡◌, ◌≢◌, refl, ap, ◌∙◌, ◌++◌, Bytes, length,
  drop, replicate, arith, Option, none, some, ℕ_discrete, dec_lt, sym, append-nil, length-zero,
  length-drop, min, ==_iff, ==-false, length-pread, subst, length-append, length-take,
  length-replicate, pread, pwrite, lt→ltb, ◌==◌, if◌then◌else◌,
}
use opentimestamps_server.Counts.Slots.{
  read_count-put_self, length-pack, pread-pwrite_before, pread-pwrite_after,
}
use opentimestamps_server.Counts.Torn.{decode-short}
use opentimestamps_server.Counts.{record_size, pack, interpret, decode, read_count, put}

decode-zeros : (m : ℕ) → decode (replicate m 0) ≡ none
unfolding decode
decode-zeros zero = refl
decode-zeros (suc zero) = refl
decode-zeros (suc (suc zero)) = refl
decode-zeros (suc (suc (suc zero))) = refl
decode-zeros (suc (suc (suc (suc zero)))) = refl
decode-zeros (suc (suc (suc (suc (suc m))))) = refl

-- Zeros behind a slot of a file of whole slots change no count.
decode-padded :
    (file : Bytes) (j m : ℕ)
    → length file % record_size ≡ 0
    → length (pread file 4 (j * 4) ++ replicate m 0) ≤ 4
    → decode (pread file 4 (j * 4) ++ replicate m 0) ≡ decode (pread file 4 (j * 4))
decode-padded file j m whole short = elim (dec_lt (j * 4) (length file)) [
  | yes inside ↦
      ap (λ z. decode (slot ++ replicate z 0)) (no_room inside) ∙ ap decode (append-nil slot)
  | no outside ↦
      let gone : slot ≡ [] = length-zero slot (omega (arith, slot_length)) in
      ap (λ z. decode (z ++ replicate m 0)) gone
      ∙ decode-zeros m
      ∙ sym (decode-short slot (omega (arith, ap length gone)))
]
  where
    slot : Bytes
    slot = pread file 4 (j * 4)

    slot_length : length slot ≡ min 4 (length file - j * 4)
    slot_length = omega (arith, length-take 4 (drop (j * 4) file), length-drop (j * 4) file)

    no_room : j * 4 < length file → m ≡ 0
    no_room inside =
        omega (arith, slot_length, length-append slot (replicate m 0), length-replicate {A = ℕ} m 0)

read_count-put_other :
    (file : Bytes) (idx count j : ℕ)
    → length file % record_size ≡ 0
    → idx ≢ j
    → read_count (pwrite file (pack count) (idx * 4)) j ≡ read_count file j
unfolding read_count
read_count-put_other file idx count j whole ne = elim (dec_lt j idx) [
  | yes below ↦
      let (m, e) = pread-pwrite_before 4 (j * 4) (idx * 4) file (pack count) (omega arith) in
      ap decode e
      ∙ decode-padded file j m whole (
          subst (λ z. length z ≤ 4) e (length-pread (pwrite file (pack count) (idx * 4)) 4 (j * 4)))
  | no above ↦
      ap decode (
        pread-pwrite_after file (pack count) 4 (idx * 4) (j * 4) (omega (arith, length-pack count)))
]

own_or_other :
    (file : Bytes) (idx count j : ℕ)
    → length file % record_size ≡ 0
    → count < 2 ^ 32
    → read_count (put file idx count) j ≡ (if idx == j then interpret count else read_count file j)
own_or_other file idx count j whole fits = elim (ℕ_discrete idx j) [
  | yes e ↦ rw ((==_iff idx j).1 e) (
      subst (λ z. read_count (put file idx count) z ≡ interpret count) e
        (read_count-put_self file idx count fits))
  | no ne ↦
      rw (==-false idx j ne)
        (unfold put in rw (lt→ltb _ _ fits) (read_count-put_other file idx count j whole ne))
]

-- What the sidecar says after a count was written at an index.
pub record IsReadBack (file : Bytes) (idx count : ℕ) (after : ℕ → Option ℕ) : Type 0 where
  pub unknown : count ≡ 0 → after idx ≡ none
  pub known : 1 ≤ count → count < 2147483648 → after idx ≡ some count
  pub zero_count : 2147483648 ≤ count → after idx ≡ some 0
  pub others : (j : ℕ) → idx ≢ j → after j ≡ read_count file j

-- In a sidecar of whole slots, a write of a count below 2 ** 32 is read back at its own entry: as
-- unknown where it is 0, as itself where it is from 1 to 2 ** 31 - 1, and as 0 where it is 2 ** 31 or
-- more; the count of every other entry, before or after it, is what it was.
pub read_count-put :
    (file : Bytes) (idx count : ℕ)
    → length file % record_size ≡ 0
    → count < 2 ^ 32
    → IsReadBack file idx count (read_count (put file idx count))
read_count-put file idx count whole fits = record {
  unknown = λ e. own ∙ ground (arith, e);
  known = λ low high. own ∙ ground (arith, low, high);
  zero_count = λ h. own ∙ ground (arith, h);
  others = λ j ne. own_or_other file idx count j whole fits ∙ rw (==-false idx j ne) refl;
}
  where
    own : read_count (put file idx count) idx ≡ interpret count
    own = own_or_other file idx count idx whole fits ∙ rw ((==_iff idx idx).1 refl) refl
