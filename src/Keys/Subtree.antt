-- ===== src/Keys/Subtree.antt =====
-- otsserver/calendar.py: the walk that `derive_key_for_idx` makes through the tree of keys.
use Prim.Native.Nat.{zero, suc}
use opentimestamps_server.Prelude.{
  ℕ, ◌+◌, ◌*◌, ◌/◌, ◌%◌, ◌^◌, ◌<◌, ◌≡◌, refl, ap, ◌∙◌, sym, Bool, true, false, List, [], ◌∷◌, Bytes,
  ◌++◌, length, arith, ◌==◌, Bool-cases, inl, inr, if◌then◌else◌,
}
use native.Mathlib.Nat.{pow-suc, div-div-eq-div-mul, mul_comm, mul-add, mul_left_comm, div-eq_of_lt}
use opentimestamps_server.Keys.{branch, derive_key_for_idx}

-- The number that binary digits write, the highest first.
unfoldable pub of_bits : List Bool → ℕ
of_bits [] = 0
of_bits (true ∷ p) = 2 ^ length p + of_bits p
of_bits (false ∷ p) = of_bits p

-- A walk from a key: a digit 1 hashes the key with the byte 0xff, a digit 0 with the byte 0x00.
unfoldable pub walk : (Bytes → Bytes) → Bytes → List Bool → Bytes
walk sha256 key [] = key
walk sha256 key (true ∷ p) = walk sha256 (sha256 (key ++ 0xff ∷ [])) p
walk sha256 key (false ∷ p) = walk sha256 (sha256 (key ++ 0x00 ∷ [])) p

-- A path of `b` digits that writes the last `b` digits of an index.
pub record IsPath (b idx : ℕ) (path : List Bool) : Type 0 where
  pub long : length path ≡ b
  pub low : of_bits path + idx / 2 ^ b * 2 ^ b ≡ idx

halves : (idx b : ℕ) → idx / 2 ^ suc b ≡ idx / 2 ^ b / 2
halves idx b = ap (λ n. idx / n) (pow-suc 2 b) ∙ sym (div-div-eq-div-mul idx (2 ^ b) 2)

odd_quotient : (q p : ℕ) → q % 2 ≡ 1 → q * p ≡ p + q / 2 * (p * 2)
odd_quotient q p odd = omega (
  arith,
  mul_comm q p ∙ ap (λ n. p * n) whole ∙ mul-add p 1 (q / 2 * 2),
  mul_left_comm p (q / 2) 2,
)
  where
    whole : q ≡ 1 + q / 2 * 2
    whole = omega arith

even_quotient : (q p : ℕ) → q % 2 ≡ 0 → q * p ≡ q / 2 * (p * 2)
even_quotient q p even =
    omega (arith, mul_comm q p ∙ ap (λ n. p * n) whole, mul_left_comm p (q / 2) 2)
  where
    whole : q ≡ q / 2 * 2
    whole = omega arith

IsPath-cons :
    (b idx : ℕ) (path : List Bool)
    → IsPath b idx path
    → IsPath (suc b) idx ((idx / 2 ^ b % 2 == 1) ∷ path)
unfolding of_bits
IsPath-cons b idx path h = elim (Bool-cases (idx / 2 ^ b % 2 == 1)) [
  | inl odd ↦ rw odd (record {
    long = ap suc h.long;
    low = rw h.long (
        rw (halves idx b) (
          rw (pow-suc 2 b)
            (omega (arith, h.low, odd_quotient (idx / 2 ^ b) (2 ^ b) (ground arith)))));
  })
  | inr even ↦ rw even (record {
    long = ap suc h.long;
    low = rw (halves idx b) (
        rw (pow-suc 2 b)
          (omega (arith, h.low, even_quotient (idx / 2 ^ b) (2 ^ b) (ground arith))));
  })
]

module _ (sha256 : Bytes → Bytes) where
  pub record IsWalk (key : Bytes) (idx b : ℕ) (derived : Bytes) : Type 0 where
    pub path : List Bool
    pub is_path : IsPath b idx path
    pub walked : derived ≡ walk sha256 key path

  walk_step :
      (key : Bytes) (bit : Bool) (path : List Bool)
      → walk sha256 (sha256 (key ++ (if bit then 0xff else 0x00) ∷ [])) path
        ≡ walk sha256 key (bit ∷ path)
  unfolding walk
  walk_step key true path = refl
  walk_step key false path = refl

  IsWalk-step :
      (key : Bytes) (idx b : ℕ) (derived : Bytes)
      → IsWalk (sha256 (key ++ branch idx b)) idx b derived
      → IsWalk key idx (suc b) derived
  IsWalk-step key idx b derived h = record {
    path = (idx / 2 ^ b % 2 == 1) ∷ h.path;
    is_path = IsPath-cons b idx h.path h.is_path;
    walked = h.walked ∙ walk_step key (idx / 2 ^ b % 2 == 1) h.path;
  }

  derive_key_for_idx-IsWalk :
      (key : Bytes) (idx b : ℕ) → IsWalk key idx b (derive_key_for_idx sha256 key idx b)
  unfolding derive_key_for_idx of_bits walk
  derive_key_for_idx-IsWalk key idx zero = record {
    path = [];
    is_path = record { long = refl; low = omega (arith, unit_quotient) };
    walked = refl;
  }
    where
      unit_quotient : idx / 2 ^ 0 * 2 ^ 0 ≡ idx
      unit_quotient = omega arith
  derive_key_for_idx-IsWalk key idx (suc b) =
      IsWalk-step key idx b (derive_key_for_idx sha256 (sha256 (key ++ branch idx b)) idx b)
        (derive_key_for_idx-IsWalk (sha256 (key ++ branch idx b)) idx b)

  -- The key of an index below 2 ^ `b` is reached by one walk of `b` digits: the digits write the
  -- index in binary, the highest first, and each digit 1 hashes the key so far with a byte 0xff, each
  -- digit 0 with a byte 0x00.
  pub derive_key_for_idx-walk :
      (key : Bytes) (idx b : ℕ)
      → idx < 2 ^ b
      → (path : List Bool) × (length path ≡ b)
        × (of_bits path ≡ idx)
        × (derive_key_for_idx sha256 key idx b ≡ walk sha256 key path)
  derive_key_for_idx-walk key idx b fits = (h.path, h.is_path.long, number, h.walked)
    where
      h : IsWalk key idx b (derive_key_for_idx sha256 key idx b)
      h = derive_key_for_idx-IsWalk key idx b

      number : of_bits h.path ≡ idx
      number =
          omega
            (arith, sym (ap (λ q. of_bits h.path + q * 2 ^ b) (div-eq_of_lt fits)) ∙ h.is_path.low)
