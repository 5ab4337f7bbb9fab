-- ===== src/Checkpoint/Refusals.antt =====
-- otsserver/calendar.py: what `read_checkpoint` accepts.
use Prim.Native.Nat.{zero, suc}
use mathlib.Core.Bool.{◌&&◌}
use native.Mathlib.Nat.{pow-suc}
use opentimestamps_server.Prelude.{
  ℕ, ◌+◌, ◌-◌, ◌*◌, ◌^◌, ◌<◌, ◌≤◌, ◌≡◌, refl, Bool, true, false, none, some, Option, List, [], ◌∷◌,
  Bytes, map, length, arith, Bool-cases, subst, inl, inr,
}
use opentimestamps_server.Checkpoint.{
  is_ascii, is_digit, is_hex, all_chars, to_lower, split, int_from, Checkpoint, bad_index?,
  bad_generation?, parse_fields, Parsed, checkpoint, OnDisk, missing, os_error, content,
  read_checkpoint,
}

mul_mono : (a b p : ℕ) → a ≤ b → a * p ≤ b * p
mul_mono a b p h = grind arith

digit_range : (c : ℕ) → is_digit c ≡ true → c ≤ 57
digit_range c h = ground arith

and_parts : (a b : Bool) → (a && b) ≡ true → (a ≡ true) × (b ≡ true)
and_parts a b h = ground arith

int_from-bound :
    (k n : ℕ) (s : Bytes)
    → all_chars is_digit s ≡ true
    → length s ≤ k
    → int_from n s < (n + 1) * 10 ^ k
unfolding int_from all_chars
int_from-bound zero n [] h len = omega arith
int_from-bound (suc k) n [] h len = rw (pow-suc 10 k) (grind (arith, int_from-bound k n [] refl))
int_from-bound zero n (c ∷ s) h len = absurd (omega arith)
int_from-bound (suc k) n (c ∷ s) h len =
    let parts = and_parts (is_digit c) (all_chars is_digit s) h in
    let rest = int_from-bound k (n * 10 + (c - b'0')) s parts.1 (omega arith) in
    let digit = digit_range c parts.0 in
    let wider = mul_mono (n * 10 + (c - b'0') + 1) ((n + 1) * 10) (10 ^ k) (omega arith) in
    rw (pow-suc 10 k) (omega arith)

-- The index that an accepted field stands for is below 10 ^ 20.
index_bound : (i : Bytes) → bad_index? i ≡ false → int_from 0 i < 10 ^ 20
index_bound i h = omega (arith, int_from-bound 20 0 i (fields h).0 (fields h).1)
  where
    fields : bad_index? i ≡ false → (all_chars is_digit i ≡ true) × (length i ≤ 20)
    fields e = ground arith

generation_shape :
    (g : Bytes) → bad_generation? g ≡ false → (length g ≡ 32) × (all_chars is_hex g ≡ true)
generation_shape g h = ground arith

abbrev pub IsGeneration : Option Bytes → Type 0
IsGeneration none = Unit {0}
IsGeneration (some g) = (length g ≡ 32) × (all_chars is_hex g ≡ true)

-- A checkpoint that the code accepts: an index of at most 20 digits, and a generation, if any, of
-- 32 lower-case hex characters.
pub record IsWellFormed (c : Checkpoint) : Type 0 where
  pub index : c.idx < 10 ^ 20
  pub generation : IsGeneration c.generation

-- A property of a result that holds of every checkpoint among the results.
abbrev Accepts : Parsed → Type 0
Accepts (checkpoint c) = IsWellFormed c
Accepts _ = Unit {0}

parse_fields-Accepts : (fields : List Bytes) → Accepts (parse_fields fields)
unfolding parse_fields
parse_fields-Accepts [] = tt
parse_fields-Accepts (i ∷ []) = elim (Bool-cases (bad_index? i)) [
  | inl bad ↦ rw bad tt
  | inr good ↦ rw good (record { index = index_bound i good; generation = tt })
]
parse_fields-Accepts (i ∷ g ∷ []) = elim (Bool-cases (bad_index? i)) [
  | inl bad ↦ rw bad tt
  | inr good ↦ rw good (elim (Bool-cases (bad_generation? (map to_lower g))) [
    | inl bad ↦ rw bad tt
    | inr fine ↦
        rw fine (record {
          index = index_bound i good;
          generation = generation_shape (map to_lower g) fine;
        })
  ])
]
parse_fields-Accepts (i ∷ g ∷ f ∷ fs) = tt

read_checkpoint-Accepts : (disk : OnDisk) → Accepts (read_checkpoint disk)
unfolding read_checkpoint
read_checkpoint-Accepts missing = tt
read_checkpoint-Accepts os_error = tt
read_checkpoint-Accepts (content raw) = elim (Bool-cases (is_ascii raw)) [
  | inl ascii ↦ rw ascii (parse_fields-Accepts (split raw))
  | inr other ↦ rw other tt
]

-- Whatever bytes stand in journal.known-good, and whether or not they can be read: a checkpoint
-- that the code accepts has an index below 10 ^ 20 and, if it names a generation, one of 32
-- lower-case hex characters.
pub read_checkpoint-IsWellFormed :
    (disk : OnDisk) (c : Checkpoint) → read_checkpoint disk ≡ checkpoint c → IsWellFormed c
read_checkpoint-IsWellFormed disk c h = subst Accepts h (read_checkpoint-Accepts disk)
