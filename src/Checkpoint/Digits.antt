-- ===== src/Checkpoint/Digits.antt =====
-- otsserver/calendar.py: the decimal digits of a checkpoint, written and read.
use Prim.Native.Nat.{zero, suc}
use mathlib.Core.Logic.{dif_pos, dif_neg}
use mathlib.Core.WellFounded.{Acc}
use native.Mathlib.Nat.{pow-suc}
use native.Mathlib.Bridge.{le_prop}
use opentimestamps_server.Prelude.{
  ℕ, ◌+◌, ◌-◌, ◌*◌, ◌/◌, ◌%◌, ◌^◌, ◌<◌, ◌≤◌, ◌≡◌, refl, ap, ◌∙◌, true, [], ◌∷◌, Bytes, length,
  dec_lt, arith,
}
use opentimestamps_server.Prelude.Wf.{lt_wf}
use opentimestamps_server.Checkpoint.{is_digit, all_chars, int_from, decimal_acc, decimal, tenth_lt}

int_from-decimal_acc :
    (n : ℕ) (w : Acc ◌<◌ n) (out : Bytes) → int_from 0 (decimal_acc n w out) ≡ int_from n out
unfolding decimal_acc int_from
int_from-decimal_acc n (Acc.intro _ smaller) out = elim (dec_lt 9 n) [
  | yes h ↦ rw (dif_pos (dec_lt 9 n) le_prop h) (
      int_from-decimal_acc (n / 10) (smaller (n / 10) (tenth_lt h)) ((b'0' + n % 10) ∷ out)
      ∙ ap (λ k. int_from k out) (together n))
  | no h ↦ rw (dif_neg (dec_lt 9 n) h) (ap (λ k. int_from k out) (last n))
]
  where
    together : (k : ℕ) → k / 10 * 10 + (b'0' + k % 10 - b'0') ≡ k
    together k = omega arith

    last : (k : ℕ) → 0 * 10 + (b'0' + k - b'0') ≡ k
    last k = omega arith

digits-decimal_acc :
    (n : ℕ) (w : Acc ◌<◌ n) (out : Bytes)
    → all_chars is_digit out ≡ true
    → all_chars is_digit (decimal_acc n w out) ≡ true
unfolding decimal_acc all_chars
digits-decimal_acc n (Acc.intro _ smaller) out ok = elim (dec_lt 9 n) [
  | yes h ↦ rw (dif_pos (dec_lt 9 n) le_prop h) (
      digits-decimal_acc (n / 10) (smaller (n / 10) (tenth_lt h)) ((b'0' + n % 10) ∷ out)
        (ground arith))
  | no h ↦ rw (dif_neg (dec_lt 9 n) h) (ground arith)
]

length-decimal_acc :
    (k n : ℕ) (w : Acc ◌<◌ n) (out : Bytes)
    → n < 10 ^ suc k
    → (length (decimal_acc n w out) ≤ suc k + length out)
      × (length out < length (decimal_acc n w out))
unfolding decimal_acc
length-decimal_acc zero n (Acc.intro _ smaller) out fits =
    rw (dif_neg (dec_lt 9 n) (omega arith)) (omega arith, omega arith)
length-decimal_acc (suc k) n (Acc.intro _ smaller) out fits = elim (dec_lt 9 n) [
  | yes h ↦
      let ih =
        length-decimal_acc k (n / 10) (smaller (n / 10) (tenth_lt h)) ((b'0' + n % 10) ∷ out)
          (omega (arith, pow-suc 10 (suc k))) in
      rw (dif_pos (dec_lt 9 n) le_prop h) (omega arith, omega arith)
  | no h ↦ rw (dif_neg (dec_lt 9 n) h) (omega arith, omega arith)
]

-- `int` of the digits of a number is the number.
pub int_from-decimal : (n : ℕ) → int_from 0 (decimal n) ≡ n
unfolding decimal int_from
int_from-decimal n = int_from-decimal_acc n (lt_wf.apply n) []

pub digits-decimal : (n : ℕ) → all_chars is_digit (decimal n) ≡ true
unfolding decimal all_chars
digits-decimal n = digits-decimal_acc n (lt_wf.apply n) [] refl

-- A number below 10 ^ 20 has from one to twenty digits.
pub length-decimal : (n : ℕ) → n < 10 ^ 20 → (0 < length (decimal n)) × (length (decimal n) ≤ 20)
unfolding decimal
length-decimal n fits =
    let both = length-decimal_acc 19 n (lt_wf.apply n) [] fits in (omega arith, omega arith)
