-- ===== src/VerifyClaim/Varuints.antt =====
-- ops/verify_claim.py: what `read_varuint` and `read_varbytes` read of the format's bytes.
use Prim.Native.Nat.{zero, suc}
use native.Mathlib.Nat.{pow-suc, mul_comm, mul-add, mul_left_comm, mul_assoc}
use opentimestamps_server.Prelude.{
  ℕ, ◌+◌, ◌*◌, ◌/◌, ◌%◌, ◌^◌, ◌≤◌, ◌<◌, true, false, ◌||◌, some, List, [], ◌∷◌, ◌++◌, Bytes, take,
  drop, length, length-append, ltb, ◌==◌, ==_iff, ◌≡◌, refl, ap, sym, ◌∙◌, arith, Bool-cases, inl,
  inr,
}
use opentimestamps_server.VerifyClaim.{varuint_from, read_varuint, read_varbytes}
use opentimestamps_server.VerifyClaim.Format.{varuint, long_varuint, varbytes}

last_byte :
    (left shift value b : ℕ) (bytes : Bytes)
    → b < 128
    → varuint_from (suc left) shift value (b ∷ bytes) ≡ some (value + b * 2 ^ shift, bytes)
unfolding varuint_from
last_byte left shift value b bytes lt = rw stop (rw low refl)
  where
    low : b % 128 ≡ b
    low = omega arith

    high : b / 128 % 2 ≡ 0
    high = omega arith

    stop : (b / 128 % 2 == 0) ≡ true
    stop = (==_iff (b / 128 % 2) 0).1 high

first_byte :
    (left shift value n : ℕ) (bytes : Bytes)
    → varuint_from (suc left) shift value ((128 + n % 128) ∷ bytes)
      ≡ varuint_from left (shift + 7) (value + n % 128 * 2 ^ shift) bytes
unfolding varuint_from
first_byte left shift value n bytes = rw more (rw low refl)
  where
    low : (128 + n % 128) % 128 ≡ n % 128
    low = omega arith

    more : ((128 + n % 128) / 128 % 2 == 0) ≡ false
    more = ground arith

read_varuint-varuint :
    (n : ℕ) (rest : Bytes) → n < 16384 → read_varuint (varuint n rest) ≡ some (n, rest)
read_varuint-varuint n rest lt = elim (Bool-cases (ltb n 128)) [
  | inl small ↦
      rw small (last_byte 9 0 0 n rest (ground (arith, small)) ∙ ap (λ v. some (v, rest)) one)
  | inr large ↦ rw large (
      first_byte 9 0 0 n ((n / 128) ∷ rest)
      ∙ last_byte 8 (0 + 7) (0 + n % 128 * 2 ^ 0) (n / 128) rest (omega arith)
      ∙ ap (λ v. some (v, rest)) two)
]
  where
    one : 0 + n * 2 ^ 0 ≡ n
    one = omega arith

    two : (0 + n % 128 * 2 ^ 0) + n / 128 * 2 ^ (0 + 7) ≡ n
    two = omega arith

pub take_first : {A : Type 0} (xs ys : List A) → take (length xs) (xs ++ ys) ≡ xs
take_first [] ys = refl
take_first (x ∷ xs) ys = ap (λ zs. x ∷ zs) (take_first xs ys)

pub drop_first : {A : Type 0} (xs ys : List A) → drop (length xs) (xs ++ ys) ≡ ys
drop_first [] ys = refl
drop_first (x ∷ xs) ys = drop_first xs ys

pub read_varbytes-varbytes :
    (max_len min_len : ℕ) (payload rest : Bytes)
    → length payload ≤ max_len
    → min_len ≤ length payload
    → length payload < 16384
    → read_varbytes max_len min_len (varbytes payload rest) ≡ some (payload, rest)
unfolding read_varbytes
read_varbytes-varbytes max_len min_len payload rest short long lt =
    rw (read_varuint-varuint (length payload) (payload ++ rest) lt)
      (rw accepted (rw (take_first payload rest) (rw (drop_first payload rest) refl)))
  where
    accepted :
        (ltb max_len (length payload)
          || (ltb (length payload) min_len || ltb (length (payload ++ rest)) (length payload)))
        ≡ false
    accepted = rw (length-append payload rest) (ground (arith, short, long))

pow-add : (k m : ℕ) → 2 ^ (m + k) ≡ 2 ^ k * 2 ^ m
pow-add k zero = ap (λ n. 2 ^ n) zero_add ∙ omega arith
  where
    zero_add : 0 + k ≡ k
    zero_add = omega arith
pow-add k (suc m) =
    ap (λ n. 2 ^ n) suc_add
    ∙ pow-suc 2 (m + k)
    ∙ ap (λ n. n * 2) (pow-add k m)
    ∙ mul_assoc (2 ^ k) (2 ^ m) 2
    ∙ ap (λ n. 2 ^ k * n) (sym (pow-suc 2 m))
  where
    suc_add : suc m + k ≡ suc (m + k)
    suc_add = omega arith

-- The low seven bits, and the others seven places higher.
seven_bits : (n shift : ℕ) → n % 128 * 2 ^ shift + n / 128 * 2 ^ (shift + 7) ≡ n * 2 ^ shift
seven_bits n shift = omega (
  arith,
  ap (λ q. n / 128 * q) (ap (λ k. 2 ^ k) place ∙ pow-add shift 7),
  mul_left_comm p (n / 128) 128,
  mul_comm p (n % 128),
  mul_comm n p ∙ ap (λ k. p * k) parts ∙ mul-add p (n % 128) (n / 128 * 128),
)
  where
    p : ℕ
    p = 2 ^ shift

    place : shift + 7 ≡ 7 + shift
    place = omega arith

    parts : n ≡ n % 128 + n / 128 * 128
    parts = omega arith

-- A number of at most ten bytes is read back, whatever follows it.
pub varuint_from-long_varuint :
    (left shift value n : ℕ) (rest : Bytes)
    → n < 128 ^ suc left
    → varuint_from (suc left) shift value (long_varuint (suc left) n rest)
      ≡ some (value + n * 2 ^ shift, rest)
unfolding long_varuint
varuint_from-long_varuint zero shift value n rest lt =
    rw small (last_byte 0 shift value n rest (omega arith))
  where
    small : ltb n 128 ≡ true
    small = ground (arith, lt)
varuint_from-long_varuint (suc left) shift value n rest lt = elim (Bool-cases (ltb n 128)) [
  | inl small ↦ rw small (last_byte (suc left) shift value n rest (ground (arith, small)))
  | inr large ↦ rw large (
      first_byte (suc left) shift value n (long_varuint (suc left) (n / 128) rest)
      ∙ varuint_from-long_varuint left (shift + 7) (value + n % 128 * 2 ^ shift) (n / 128) rest
          (omega (arith, lt, pow-suc 128 (suc left)))
      ∙ ap (λ v. some (v, rest)) (omega (arith, seven_bits n shift)))
]
