-- ===== src/Stamper/Bumps.antt =====
-- otsserver/stamper.py: the feerates of the rounds of `while sent_tx is None`.
use Prim.Native.Nat.{zero, suc}
use native.Mathlib.Nat.{le-div_iff_mul-le, mul-le-mul_left, mul-le-mul_right, le_of_mul-le-mul_left}
use opentimestamps_server.Prelude.{
  ℕ, ◌+◌, ◌*◌, ◌≤◌, ◌<◌, ◌≡◌, refl, true, false, Option, none, some, List, [], ◌∷◌, Bytes, length,
  ◌==◌, Bool-cases, inl, inr, ◌⊎◌, arith, dec_le,
}
use opentimestamps_server.Prelude.Int.{ℤ, pos, negsuc, ◌-ℤ◌, above}
use opentimestamps_server.Stamper.{OutPoint, Tx, TxOut, Attempt, Stamper}
use opentimestamps_server.Stamper.Wallet.{
  Found, found, index_error, raises, Rate, raise_rate, dust, delta_fee, update_outputs,
  with_outputs, commit_out, update_timestamp_tx, get_tx_fee,
}
use opentimestamps_server.Stamper.Sending.{
  Sign, complete, incomplete, sign_raises, Send, accepted, refused, send_raises, Config, Node,
  Library, Round, sends, stops, fails, again, best_hash, same_attempt, after_send, after_sign,
  try_attempt, priced, updated, at_height, send_round, send_loop,
}

-- The loop or the round has ended.
abbrev pub IsEnded : Round → Type 0
IsEnded (sends tx fee) = Unit {0}
IsEnded (stops s) = Unit {0}
IsEnded (fails s) = Unit {0}
IsEnded again = ⊥

-- What there is to spend on fees: the value of the first output.
abbrev amount_of : ℤ → ℕ
amount_of (pos v) = v
amount_of (negsuc v) = 0

abbrev pub change_of : List TxOut → ℕ
change_of [] = 0
change_of (o ∷ os) = amount_of o.value

no_change : (z : ℤ) (delta : ℕ) → amount_of z ≤ delta → above (z -ℤ pos delta) dust ≡ false
no_change (pos v) zero h = ground arith
no_change (pos v) (suc d) h = ground arith
no_change (negsuc v) zero h = ground arith
no_change (negsuc v) (suc d) h = ground arith

module _ (c : Config) (n : Node) (k : ℕ) (s : Stamper) (unsigned : Tx)
    (all_fee : (length unsigned.vout == 1) ≡ true) where
  after_send-IsEnded :
      (tx : Tx) (attempt : Attempt) (r : Send) → IsEnded (after_send unsigned tx attempt s r)
  after_send-IsEnded tx attempt accepted = tt
  after_send-IsEnded tx attempt refused = rw all_fee tt
  after_send-IsEnded tx attempt send_raises = tt

  after_sign-IsEnded :
      (attempt : Attempt) (r : Sign) → IsEnded (after_sign n k unsigned attempt s r)
  after_sign-IsEnded attempt (complete tx) = after_send-IsEnded tx attempt (n.send k tx)
  after_sign-IsEnded attempt incomplete = tt
  after_sign-IsEnded attempt sign_raises = tt

  try_attempt-IsEnded :
      (fee : ℤ) (vin : List OutPoint) → IsEnded (try_attempt n k unsigned fee vin s)
  try_attempt-IsEnded fee [] = tt
  try_attempt-IsEnded fee (prevout ∷ vin) =
      let attempt : Attempt = record {
        prevout = prevout;
        fee = fee;
        tip = best_hash s.known_blocks;
      } in
      elim (Bool-cases (same_attempt attempt s.refused_anchor)) [
        | inl known ↦ rw known tt
        | inr new ↦ rw new (after_sign-IsEnded attempt (n.sign k unsigned))
      ]

  priced-IsEnded : (o : Found ℤ) → IsEnded (priced c n k unsigned o s)
  priced-IsEnded (found fee) = elim (Bool-cases (above fee c.max_fee)) [
    | inl high ↦ rw high tt
    | inr within ↦ rw within (try_attempt-IsEnded fee unsigned.vin)
  ]
  priced-IsEnded index_error = tt
  priced-IsEnded raises = tt

-- A round at a feerate that spends the whole change ends the loop.
send_round-IsEnded :
    (c : Config) (n : Node) (l : Library) (k : ℕ) (prev : Tx) (tip : Bytes) (rate : Rate)
    (s : Stamper)
    → change_of prev.vout ≤ delta_fee (l.weight prev) rate
    → IsEnded (send_round c n l k prev tip rate s)
unfolding send_round update_timestamp_tx
send_round-IsEnded c n l k prev tip rate s spent = at (n.getblockcount k)
  where
    made :
        (height : ℕ) (outs : List TxOut)
        → change_of outs ≤ delta_fee (l.weight prev) rate
        → IsEnded (
            updated c n k
              (with_outputs prev height (update_outputs outs (delta_fee (l.weight prev) rate) tip))
              s)
    made height [] h = tt
    made height (o ∷ os) h =
        rw (no_change o.value (delta_fee (l.weight prev) rate) h)
          (priced-IsEnded c n k s only refl (get_tx_fee (n.gettxout k) only))
      where
        only : Tx
        only = record { vin = prev.vin; vout = commit_out tip ∷ []; lock_time = height }

    at : (o : Option ℕ) → IsEnded (at_height c n l k prev tip rate o s)
    at none = tt
    at (some height) = made height prev.vout spent

-- The feerate after `j` rises from one with the denominator `base`.
record IsRisen (base j : ℕ) (rate : Rate) : Type 0 where
  positive : 0 < rate.den
  risen : (4 + j) * rate.den ≤ 4 * (base * rate.num)

rise : (j d b n : ℕ) → (4 + j) * d ≤ 4 * (b * n) → (4 + (j + 1)) * (d * 4) ≤ 4 * (b * (n * 5))
rise j d b n h = omega (arith, h)

spend :
    (b j v w n d : ℕ)
    → 0 < b
    → 6 * (v * b) ≤ j
    → (4 + j) * d ≤ 4 * (b * n)
    → v * (4 * d) ≤ (w + 3) * n
spend b j v w n d b_pos many h =
    le_of_mul-le-mul_left {m = v * (4 * d)} {n = (w + 3) * n} {k = b}
      (omega (arith, mul-le-mul_right {m = 6 * (v * b)} {n = j} d many, h)) b_pos

raise-IsRisen :
    (base j : ℕ) (rate : Rate) → IsRisen base j rate → IsRisen base (j + 1) (raise_rate rate)
raise-IsRisen base j rate h = record {
  positive = omega (arith, h.positive);
  risen = rise j rate.den base rate.num h.risen;
}

IsRisen-delta_fee :
    (base j v weight : ℕ) (rate : Rate)
    → 0 < base
    → 6 * (v * base) ≤ j
    → IsRisen base j rate
    → v ≤ delta_fee weight rate
unfolding delta_fee
IsRisen-delta_fee base j v weight rate base_pos many h =
    (le-div_iff_mul-le (omega (arith, h.positive))).1
      (spend base j v weight rate.num rate.den base_pos many h.risen)

-- A loop ends with its round, or after it.
ends_with :
    (rest r : Round)
    → IsEnded r ⊎ IsEnded rest
    → IsEnded (elim r [
      | sends tx fee ↦ sends tx fee
      | stops t ↦ stops t
      | fails t ↦ fails t
      | again ↦ rest
    ])
ends_with rest (sends tx fee) e = tt
ends_with rest (stops t) e = tt
ends_with rest (fails t) e = tt
ends_with rest again (inl e) = absurd e
ends_with rest again (inr e) = e

loop-IsEnded :
    (fuel base j : ℕ) (c : Config) (n : Node) (l : Library) (k : ℕ) (prev : Tx) (tip : Bytes)
    (rate : Rate) (s : Stamper)
    → 0 < base
    → j ≤ 6 * (change_of prev.vout * base)
    → 6 * (change_of prev.vout * base) < j + fuel
    → IsRisen base j rate
    → IsEnded (send_loop fuel c n l k prev tip rate rate s)
unfolding send_loop
loop-IsEnded zero base j c n l k prev tip rate s base_pos low lt h = absurd (omega arith)
loop-IsEnded (suc fuel) base j c n l k prev tip rate s base_pos low lt h =
    elim (dec_le (6 * (change_of prev.vout * base)) j) [
      | yes spent ↦
          ends_with (send_loop fuel c n l (k + 1) prev tip (raise_rate rate) (raise_rate rate) s)
            (send_round c n l k prev tip rate s)
            (inl (
              send_round-IsEnded c n l k prev tip rate s (
                IsRisen-delta_fee base j (change_of prev.vout) (l.weight prev) rate base_pos spent
                  h)))
      | no more ↦
          ends_with (send_loop fuel c n l (k + 1) prev tip (raise_rate rate) (raise_rate rate) s)
            (send_round c n l k prev tip rate s)
            (inr (
              loop-IsEnded fuel base (j + 1) c n l (k + 1) prev tip (raise_rate rate) s base_pos
                (omega arith) (omega arith) (raise-IsRisen base j rate h)))
    ]

-- The loop of the sending ends, whatever the node answers, for every first feerate, where the rate
-- that is raised is above zero: each refusal raises the feerate by a quarter, until the fee takes
-- the whole of the old transaction's first output and a refusal ends the loop. Its rounds are at
-- most two more than six times that output's value and the denominator of the rate.
pub send_loop_ends :
    (c : Config) (n : Node) (l : Library) (prev : Tx) (tip : Bytes) (rate next : Rate) (s : Stamper)
    → 0 < next.num
    → 0 < next.den
    → IsEnded
        (send_loop (suc (suc (6 * (change_of prev.vout * next.den)))) c n l 0 prev tip rate next s)
unfolding send_loop
send_loop_ends c n l prev tip rate next s num_pos den_pos = elim (dec_le (change_of prev.vout) 0) [
  | yes nothing ↦
      ends_with (send_loop (suc rounds) c n l 1 prev tip (raise_rate next) (raise_rate next) s)
        (send_round c n l 0 prev tip rate s)
        (inl (send_round-IsEnded c n l 0 prev tip rate s (omega arith)))
  | no change ↦
      ends_with (send_loop (suc rounds) c n l 1 prev tip (raise_rate next) (raise_rate next) s)
        (send_round c n l 0 prev tip rate s) (inr (rest (omega arith)))
]
  where
    rounds : ℕ
    rounds = 6 * (change_of prev.vout * next.den)

    start : IsRisen next.den 0 next
    start = record {
      positive = den_pos;
      risen = omega (arith, mul-le-mul_left {m = 1} {n = next.num} next.den num_pos);
    }

    rest :
        0 < change_of prev.vout
        → IsEnded (send_loop (suc rounds) c n l 1 prev tip (raise_rate next) (raise_rate next) s)
    rest some_change =
        loop-IsEnded (suc rounds) next.den 1 c n l 1 prev tip (raise_rate next) s den_pos
          (omega (arith, mul-le-mul_right {m = 1} {n = change_of prev.vout} next.den some_change))
          (omega arith) (raise-IsRisen next.den 0 next start)
