-- ===== src/Counts/Torn.antt =====
-- otsserver/calendar.py: `RecordCounts` after torn writes of `RecordCountsWriter`.
use opentimestamps_server.Prelude.{
  ℕ, zero, suc, [], ◌∷◌, ◌+◌, ◌-◌, ◌*◌, ◌/◌, ◌%◌, ◌^◌, ◌≤◌, ◌<◌, ◌≡◌, ◌≢◌, refl, ap, ◌∙◌, ◌++◌,
  Bytes, length, take, drop, replicate, arith, none, ℕ_discrete, dec_lt, drop-drop, drop-take,
  drop-replicate, replicate-add, take-append_ge, append_assoc, sym, subst, length-append,
  length-take, length-replicate, pread, ltb, lt→ltb, Bool-cases, inl, inr, ◌⊎◌,
}
use opentimestamps_server.Counts.Slots.{
  length-pack, pread-pwrite_at, pread-pwrite_before, pread-pwrite_after,
}
use opentimestamps_server.Counts.{
  record_size, known_zero_threshold, pack, interpret, decode, read_count, put, put_torn, summed,
}

pub decode-short : (xs : Bytes) → length xs ≢ 4 → decode xs ≡ none
unfolding decode
decode-short [] h = refl
decode-short (a ∷ []) h = refl
decode-short (a ∷ b ∷ []) h = refl
decode-short (a ∷ b ∷ c ∷ []) h = refl
decode-short (a ∷ b ∷ c ∷ d ∷ []) h = absurd (h refl)
decode-short (a ∷ b ∷ c ∷ d ∷ e ∷ xs) h = refl

-- A big-endian prefix followed by zeros is at most the number, and the stored zero stays above the
-- threshold.
interpret-le :
    (x count : ℕ)
    → x ≤ count
    → (x ≡ 0) ⊎ (known_zero_threshold ≤ count → known_zero_threshold ≤ x)
    → summed (interpret x) ≤ summed (interpret count)
interpret-le x count h (inl e) = ground arith
interpret-le x count h (inr f) = ground arith

torn_whole :
    (k count : ℕ)
    → k ≤ 4
    → count < 2 ^ 32
    → summed (decode (take k (pack count) ++ replicate (4 - k) 0)) ≤ summed (interpret count)
unfolding decode pack
torn_whole zero count hk hc = interpret-le 0 count (omega arith) (inl refl)
torn_whole (suc zero) count hk hc =
    interpret-le (count / 2 ^ 24 % 256 * 2 ^ 24 + 0 * 2 ^ 16 + 0 * 2 ^ 8 + 0) count (omega arith)
      (inr (omega arith))
torn_whole (suc (suc zero)) count hk hc =
    interpret-le (count / 2 ^ 24 % 256 * 2 ^ 24 + count / 2 ^ 16 % 256 * 2 ^ 16 + 0 * 2 ^ 8 + 0)
      count (omega arith) (inr (omega arith))
torn_whole (suc (suc (suc zero))) count hk hc =
    interpret-le
      (count / 2 ^ 24 % 256 * 2 ^ 24
        + count / 2 ^ 16 % 256 * 2 ^ 16
        + count / 2 ^ 8 % 256 * 2 ^ 8
        + 0)
      count (omega arith) (inr (omega arith))
torn_whole (suc (suc (suc (suc zero)))) count hk hc =
    interpret-le
      (count / 2 ^ 24 % 256 * 2 ^ 24
        + count / 2 ^ 16 % 256 * 2 ^ 16
        + count / 2 ^ 8 % 256 * 2 ^ 8
        + count % 256)
      count (omega arith) (inr (omega arith))
torn_whole (suc (suc (suc (suc (suc k))))) count hk hc = absurd (omega arith)

rest : (k m : ℕ) → k + m ≡ 4 → 4 - k ≡ m
rest k m e = omega arith

slot_length : (k m count : ℕ) → k ≤ 4 → length (take k (pack count) ++ replicate m 0) ≡ k + m
slot_length k m count hk = omega (
  arith,
  length-append (take k (pack count)) (replicate m 0),
  length-take k (pack count),
  length-replicate {A = ℕ} m 0,
  length-pack count,
)

-- The slot holds zeros only, or reaches past the end of the file.
abbrev pub IsUnwritten : Bytes → ℕ → Type 0
IsUnwritten file idx = (m : ℕ) × (pread file record_size (idx * record_size) ≡ replicate m 0)

-- A slot that holds the first bytes of a count and then zeros, or ends early.
torn_slot :
    (k m count : ℕ)
    → k ≤ 4
    → count < 2 ^ 32
    → summed (decode (take k (pack count) ++ replicate m 0)) ≤ summed (interpret count)
torn_slot k m count hk hc = elim (ℕ_discrete (k + m) 4) [
  | yes e ↦
      subst (λ j. summed (decode (take k (pack count) ++ replicate j 0)) ≤ summed (interpret count))
        (rest k m e) (torn_whole k count hk hc)
  | no ne ↦
      rw
        (decode-short (take k (pack count) ++ replicate m 0)
          (λ e. ne (sym (slot_length k m count hk) ∙ e)))
        (omega arith)
]

-- The slot holds the first `k` bytes of a count, and then zeros or nothing.
abbrev IsTorn : ℕ → ℕ → Bytes → ℕ → Type 0
IsTorn k count file idx =
    (m : ℕ) × (pread file record_size (idx * record_size) ≡ take k (pack count) ++ replicate m 0)

put_torn-IsTorn :
    (k count : ℕ) (file : Bytes) (idx : ℕ)
    → k ≤ 4
    → count < 2 ^ 32
    → IsUnwritten file idx
    → IsTorn k count (put_torn k file idx count) idx
unfolding put_torn
put_torn-IsTorn zero count file idx hk hc (m, zeros) = (m, zeros)
put_torn-IsTorn (suc j) count file idx hk hc (m, zeros) = rw (lt→ltb _ _ hc) (
  m - (suc j),
  pread-pwrite_at file written 4 off
      ∙ take-append_ge 4 written (drop (off + length written) file) (omega (arith, short))
      ∙ ap (λ z. written ++ take (4 - z) (drop (off + z) file)) short
      ∙ ap (λ z. written ++ z)
          (ap (take (4 - (suc j))) (sym (drop-drop (suc j) off file))
            ∙ sym (drop-take (suc j) 4 (drop off file) hk)
            ∙ ap (drop (suc j)) zeros
            ∙ drop-replicate (suc j) m 0),
)
  where
    off : ℕ
    off = idx * record_size

    written : Bytes
    written = take (suc j) (pack count)

    short : length written ≡ (suc j)
    short = omega (arith, length-take (suc j) (pack count), length-pack count)

-- A write elsewhere leaves a slot as it is, or fills it up with zeros.
put-IsTorn :
    (k count : ℕ) (file : Bytes) (idx other n : ℕ)
    → idx ≢ other
    → IsTorn k count file idx
    → IsTorn k count (put file other n) idx
unfolding put
put-IsTorn k count file idx other n ne (m, slot) = elim (Bool-cases (ltb n (2 ^ 32))) [
  | inr big ↦ rw big (m, slot)
  | inl fits ↦ rw fits (elim (dec_lt idx other) [
    | yes below ↦
        let (j, e) = pread-pwrite_before 4 (idx * 4) (other * 4) file (pack n) (omega arith) in
        (
          m + j,
          e
              ∙ ap (λ z. z ++ replicate j 0) slot
              ∙ append_assoc (take k (pack count)) (replicate m 0) (replicate j 0)
              ∙ ap (λ z. take k (pack count) ++ z) (replicate-add m j 0),
        )
    | no above ↦ (
      m,
      pread-pwrite_after file (pack n) 4 (other * 4) (idx * 4) (omega (arith, length-pack n))
          ∙ slot,
    )
  ])
]

IsTorn-undercounts :
    (k count : ℕ) (file : Bytes) (idx : ℕ)
    → k ≤ 4
    → count < 2 ^ 32
    → IsTorn k count file idx
    → summed (read_count file idx) ≤ summed (interpret count)
unfolding read_count
IsTorn-undercounts k count file idx hk hc (m, slot) = rw slot (torn_slot k m count hk hc)

-- After a write of a count that stopped early, into a slot that held no count, and after any
-- later write of another slot, the slot adds no more to a receipt than the count would have.
pub torn_put_undercounts :
    (file : Bytes) (idx count k other n : ℕ)
    → IsUnwritten file idx
    → k ≤ 4
    → count < 2 ^ 32
    → idx ≢ other
    → let torn = put_torn k file idx count in
      (summed (read_count torn idx) ≤ summed (interpret count))
      × (summed (read_count (put torn other n) idx) ≤ summed (interpret count))
torn_put_undercounts file idx count k other n free hk hc ne =
    let torn = put_torn-IsTorn k count file idx hk hc free in
    (
      IsTorn-undercounts k count (put_torn k file idx count) idx hk hc torn,
      IsTorn-undercounts k count (put (put_torn k file idx count) other n) idx hk hc
          (put-IsTorn k count (put_torn k file idx count) idx other n ne torn),
    )
