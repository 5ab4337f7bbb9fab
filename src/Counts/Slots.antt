-- ===== src/Counts/Slots.antt =====
-- otsserver/calendar.py: the slots of four bytes that `RecordCounts` reads.
use opentimestamps_server.Prelude.{
  ℕ, zero, suc, [], ◌∷◌, lt→ltb, pread-append_old, ◌+◌, ◌-◌, ◌*◌, ◌/◌, ◌%◌, ◌≤◌, ◌<◌, ◌≡◌, refl, ap,
  ◌∙◌, sym, ◌++◌, ◌^◌, append_assoc, arith, Bytes, length, take, drop, replicate, pread, pwrite,
  length-append, length-take, length-replicate, take-append_le, drop-append_ge, take_all, drop-drop,
}
use opentimestamps_server.Counts.{record_size, pack, interpret, decode, read_count, put}

-- What stands before the written bytes: the old part, filled up with zeros to `off`.
abbrev front : Bytes → ℕ → Bytes
front file off = take off file ++ replicate (off - length file) 0

length-front : (file : Bytes) (off : ℕ) → length (front file off) ≡ off
length-front file off = omega (
  arith,
  length-append (take off file) (replicate (off - length file) 0),
  length-take off file,
  length-replicate {A = ℕ} (off - length file) 0,
)

pub pwrite-front :
    (file written : Bytes) (off : ℕ)
    → pwrite file written off ≡ front file off ++ (written ++ drop (off + length written) file)
unfolding pwrite
pwrite-front file written off =
    append_assoc (front file off) written (drop (off + length written) file)

drop_diff : (xs : Bytes) {n off : ℕ} → n ≡ off → drop (off - n) xs ≡ xs
drop_diff xs {n} {off} e = ap (λ k. drop k xs) zero_off
  where
    zero_off : off - n ≡ 0
    zero_off = omega arith

regroup : (off n at : ℕ) → off + n ≤ at → off + n + (at - off - n) ≡ at
regroup off n at h = omega arith

-- A read at the place of a write gives the written bytes, then the old ones.
pub pread-pwrite_at :
    (file written : Bytes) (n off : ℕ)
    → pread (pwrite file written off) n off ≡ take n (written ++ drop (off + length written) file)
pread-pwrite_at file written n off =
    ap (λ f. take n (drop off f)) (pwrite-front file written off)
    ∙ ap (take n) (
        drop-append_ge off (front file off) _ (omega (arith, length-front file off))
        ∙ drop_diff (written ++ drop (off + length written) file) (length-front file off))

-- A read behind a write is the old one.
pub pread-pwrite_after :
    (file written : Bytes) (n off at : ℕ)
    → off + length written ≤ at
    → pread (pwrite file written off) n at ≡ pread file n at
pread-pwrite_after file written n off at h =
    ap (λ f. take n (drop at f)) (pwrite-front file written off)
    ∙ ap (take n) (
        drop-append_ge at (front file off) _ (omega (arith, length-front file off))
        ∙ ap (λ k. drop (at - k) (written ++ drop (off + length written) file))
            (length-front file off)
        ∙ drop-append_ge (at - off) written _ (omega arith)
        ∙ drop-drop (at - off - length written) (off + length written) file
        ∙ ap (λ k. drop k file) (regroup off (length written) at h))

nil_front : (off : ℕ) → front [] off ≡ replicate off 0
nil_front zero = refl
nil_front (suc off) = ap (λ k. replicate k 0) same
  where
    same : suc off - 0 ≡ suc off
    same = omega arith

slot_end : (i : ℕ) → (i + 1) * record_size ≡ i * record_size + record_size
slot_end i = omega arith

pub length-pack : (count : ℕ) → length (pack count) ≡ record_size
unfolding pack
length-pack count = refl

front-cons : (x : ℕ) (xs : Bytes) (off : ℕ) → front (x ∷ xs) (suc off) ≡ x ∷ front xs off
front-cons x xs off = ap (λ k. x ∷ (take off xs ++ replicate k 0)) same
  where
    same : suc off - suc (length xs) ≡ off - length xs
    same = omega arith

replicate-part :
    (n at off : ℕ) → at + n ≤ off → take n (drop at (replicate {A = ℕ} off 0)) ≡ replicate n 0
replicate-part zero at off h = refl
replicate-part (suc n) zero zero h = absurd (omega arith)
replicate-part (suc n) zero (suc off) h =
    ap (λ xs. 0 ∷ xs) (replicate-part n zero off (omega arith))
replicate-part (suc n) (suc at) zero h = absurd (omega arith)
replicate-part (suc n) (suc at) (suc off) h = replicate-part (suc n) at off (omega arith)

pread-nil : (n at : ℕ) → pread [] n at ≡ []
pread-nil zero at = refl
pread-nil (suc n) zero = refl
pread-nil (suc n) (suc at) = refl

-- Below `off` the file is the old one, its missing bytes filled with zeros.
pub pread-front :
    (n at off : ℕ) (file : Bytes)
    → at + n ≤ off
    → (m : ℕ) × (pread (front file off) n at ≡ pread file n at ++ replicate m 0)
pread-front n at off [] h = (n, whole)
  where
    whole : pread (front [] off) n at ≡ pread [] n at ++ replicate n 0
    whole =
        ap (λ z. pread z n at) (nil_front off)
        ∙ replicate-part n at off h
        ∙ ap (λ z. z ++ replicate n 0) (sym (pread-nil n at))
pread-front zero at off (x ∷ xs) h = (0, refl)
pread-front (suc n) zero zero (x ∷ xs) h = absurd (omega arith)
pread-front (suc n) zero (suc off) (x ∷ xs) h =
    let (m, e) = pread-front n zero off xs (omega arith) in
    (m, ap (λ z. pread z (suc n) zero) (front-cons x xs off) ∙ ap (λ ys. x ∷ ys) e)
pread-front (suc n) (suc at) zero (x ∷ xs) h = absurd (omega arith)
pread-front (suc n) (suc at) (suc off) (x ∷ xs) h =
    let (m, e) = pread-front (suc n) at off xs (omega arith) in
    (m, ap (λ z. pread z (suc n) (suc at)) (front-cons x xs off) ∙ e)

-- A read that ends below a write is the old one, its missing bytes filled with zeros.
pub pread-pwrite_before :
    (n at off : ℕ) (file written : Bytes)
    → at + n ≤ off
    → (m : ℕ) × (pread (pwrite file written off) n at ≡ pread file n at ++ replicate m 0)
pread-pwrite_before n at off file written h =
    let (m, e) = pread-front n at off file h in
    (
      m,
      ap (λ f. pread f n at) (pwrite-front file written off)
          ∙ pread-append_old (front file off) (written ++ drop (off + length written) file) n at
              (omega (arith, length-front file off))
          ∙ e,
    )

-- A count written is the count read, with 0 and the stored zero as their own cases.
pub decode-pack : (count : ℕ) → count < 2 ^ 32 → decode (pack count) ≡ interpret count
unfolding decode pack
decode-pack count h = ap interpret whole
  where
    whole :
        count / 2 ^ 24 % 256 * 2 ^ 24
          + count / 2 ^ 16 % 256 * 2 ^ 16
          + count / 2 ^ 8 % 256 * 2 ^ 8
          + count % 256
        ≡ count
    whole = omega arith

-- The count of a whole write is the one read at its own entry.
pub read_count-put_self :
    (file : Bytes) (idx count : ℕ)
    → count < 2 ^ 32
    → read_count (put file idx count) idx ≡ interpret count
unfolding read_count put
read_count-put_self file idx count h = rw (lt→ltb _ _ h) (
    ap decode (pread-pwrite_at file (pack count) record_size (idx * record_size))
    ∙ ap decode (take-append_le record_size (pack count) _ (omega (arith, length-pack count)))
    ∙ ap decode (take_all record_size (pack count) (omega (arith, length-pack count)))
    ∙ decode-pack count h)
