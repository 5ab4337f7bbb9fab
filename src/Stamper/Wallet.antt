-- ===== src/Stamper/Wallet.antt =====
-- otsserver/stamper.py: `find_unspent`, `_get_tx_fee`, and the making of timestamp transactions. A
-- feerate is the exact quotient of two numbers, where the code has a float.
use mathlib.Core.Bool.{◌&&◌}
use opentimestamps_server.Prelude.{
  ℕ, ◌+◌, ◌*◌, ◌/◌, Bool, true, Option, none, some, List, [], ◌∷◌, Bytes, length, replicate, ltb,
  leb, ◌==◌, if◌then◌else◌,
}
use opentimestamps_server.Prelude.Int.{ℤ, pos, negsuc, ◌+ℤ◌, ◌-ℤ◌, above}
use opentimestamps_server.Stamper.{OutPoint, wallet_script, op_return, TxOut, Tx}

abbrev pub dust : ℕ
dust = 330

pub record Unspent : Type 0 where
  pub outpoint : OutPoint
  pub amount : ℕ
  pub spendable : Bool

-- What a call of the node gives: `index_error` is `IndexError`, `raises` any other exception.
pub data Found {ℓ} (A : Type ℓ) : Type ℓ where
  found : A → Found A
  index_error raises : Found A

-- The wallet's answers; `none` is an exception. `gettxout` gives the value of an output that is
-- unspent and confirmed.
pub record Wallet : Type 0 where
  pub confirmed : Option (List Unspent)
  pub unconfirmed : Option (List Unspent)
  pub getrawtransaction : Bytes → Option Tx
  pub gettxout : OutPoint → Found ℕ
  pub gettransaction : Bytes → Found (Unit {0})

-- `sorted(..., key=lambda x: x['amount'])`
unfoldable pub insert_unspent : Unspent → List Unspent → List Unspent
insert_unspent u [] = u ∷ []
insert_unspent u (v ∷ vs) =
    let rest = insert_unspent u vs in if leb u.amount v.amount then u ∷ v ∷ vs else v ∷ rest

unfoldable pub sorted : List Unspent → List Unspent
unfolding insert_unspent
sorted [] = []
sorted (u ∷ us) = insert_unspent u (sorted us)

unfoldable pub filter_unspent : List Unspent → List Unspent
filter_unspent [] = []
filter_unspent (u ∷ us) =
    let rest = filter_unspent us in if ltb dust u.amount && u.spendable then u ∷ rest else rest

abbrev pub sort_filter_unspent : List Unspent → List Unspent
sort_filter_unspent us = sorted (filter_unspent us)

-- The input of an unconfirmed transaction, where it is confirmed and the wallet's.
abbrev pub from_wallet : OutPoint → ℕ → Found (Unit {0}) → List Unspent → Option (List Unspent)
from_wallet prevout amount (found u) rest =
    some (record { outpoint = prevout; amount = amount; spendable = true } ∷ rest)
from_wallet prevout amount index_error rest = some rest
from_wallet prevout amount raises rest = none

abbrev pub from_input : Wallet → OutPoint → Found ℕ → List Unspent → Option (List Unspent)
from_input w prevout (found amount) rest =
    from_wallet prevout amount (w.gettransaction prevout.hash) rest
from_input w prevout index_error rest = some rest
from_input w prevout raises rest = none

-- "a single input and two outputs"
abbrev pub from_tx : Wallet → List OutPoint → ℕ → List Unspent → Option (List Unspent)
from_tx w (prevout ∷ []) outputs rest =
    if outputs == 2 then from_input w prevout (w.gettxout prevout) rest else some rest
from_tx w vin outputs rest = some rest

abbrev pub replaceable : Wallet → Option Tx → Option (List Unspent) → Option (List Unspent)
replaceable w none rest = none
replaceable w (some tx) none = none
replaceable w (some tx) (some rest) = from_tx w tx.vin (length tx.vout) rest

unfoldable pub confirmed_inputs : Wallet → List Unspent → Option (List Unspent)
confirmed_inputs w [] = some []
confirmed_inputs w (u ∷ us) =
    replaceable w (w.getrawtransaction u.outpoint.hash) (confirmed_inputs w us)

abbrev pub sorted_inputs : Option (List Unspent) → Option (List Unspent)
sorted_inputs none = none
sorted_inputs (some us) = some (sorted us)

abbrev pub try_unconfirmed : Wallet → Option (List Unspent) → Option (List Unspent)
try_unconfirmed w none = none
try_unconfirmed w (some us) = sorted_inputs (confirmed_inputs w (sort_filter_unspent us))

abbrev pub try_confirmed : Wallet → List Unspent → Option (List Unspent)
try_confirmed w [] = try_unconfirmed w w.unconfirmed
try_confirmed w (u ∷ us) = some (u ∷ us)

-- `find_unspent`, ascending; `none` is an exception.
abbrev listed : Wallet → Option (List Unspent) → Option (List Unspent)
listed w none = none
listed w (some us) = try_confirmed w (sort_filter_unspent us)

unfoldable pub find_unspent : Wallet → Option (List Unspent)
unfolding confirmed_inputs
find_unspent w = listed w w.confirmed

-- A feerate in satoshis per virtual byte.
pub record Rate : Type 0 where
  pub num : ℕ
  pub den : ℕ

-- `int((weight + 3) / 4 * feerate)`
unfoldable pub delta_fee : ℕ → Rate → ℕ
delta_fee weight rate = (weight + 3) * rate.num / (4 * rate.den)

-- `bump_feerate *= 1.25`
abbrev pub raise_rate : Rate → Rate
raise_rate rate = record { num = rate.num * 5; den = rate.den * 4 }

-- `__create_new_timestamp_tx_template`
abbrev pub tx_template : OutPoint → ℕ → Bytes → Tx
tx_template outpoint value change_script = record {
  vin = outpoint ∷ [];
  vout =
      record { value = pos value; script = wallet_script change_script }
      ∷ record { value = negsuc 0; script = op_return (replicate 32 0) }
      ∷ [];
  lock_time = 0;
}

abbrev pub commit_out : Bytes → TxOut
commit_out commitment = record { value = pos 0; script = op_return commitment }

-- The outputs of `__update_timestamp_tx`, from the old ones; none to change is an `IndexError`.
abbrev pub update_outputs : List TxOut → ℕ → Bytes → Option (List TxOut)
update_outputs [] delta commitment = none
update_outputs (change ∷ rest) delta commitment = some (
    if above (change.value -ℤ pos delta) dust
    then record { value = change.value -ℤ pos delta; script = change.script }
      ∷ commit_out commitment
      ∷ []
    else commit_out commitment ∷ [])

abbrev pub with_outputs : Tx → ℕ → Option (List TxOut) → Option Tx
with_outputs old lock_time none = none
with_outputs old lock_time (some outs) =
    some (record { vin = old.vin; vout = outs; lock_time = lock_time })

-- `__update_timestamp_tx`; `weight` is three times the stripped size and once the full one.
unfoldable pub update_timestamp_tx : (Tx → ℕ) → Tx → Bytes → ℕ → Rate → Option Tx
unfolding delta_fee
update_timestamp_tx weight old commitment height rate =
    with_outputs old height (update_outputs old.vout (delta_fee (weight old) rate) commitment)

unfoldable pub sum_out : List TxOut → ℤ
sum_out [] = pos 0
sum_out (o ∷ os) = o.value +ℤ sum_out os

abbrev pub add_value : Found ℕ → Found ℕ → Found ℕ
add_value (found a) (found b) = found (a + b)
add_value (found a) index_error = index_error
add_value (found a) raises = raises
add_value index_error rest = index_error
add_value raises rest = raises

unfoldable pub sum_in : (OutPoint → Found ℕ) → List OutPoint → Found ℕ
sum_in gettxout [] = found 0
sum_in gettxout (i ∷ is) = let rest = sum_in gettxout is in add_value (gettxout i) rest

abbrev pub less_outputs : List TxOut → Found ℕ → Found ℤ
less_outputs outs (found value_in) = found (pos value_in -ℤ sum_out outs)
less_outputs outs index_error = index_error
less_outputs outs raises = raises

-- `_get_tx_fee`; `index_error` is its `None`.
unfoldable pub get_tx_fee : (OutPoint → Found ℕ) → Tx → Found ℤ
unfolding sum_in sum_out
get_tx_fee gettxout tx = less_outputs tx.vout (sum_in gettxout tx.vin)
