-- ===== src/Stamper/Sending.antt =====
-- otsserver/stamper.py: `__do_bitcoin` from the save of the mature trees to its end: the sending of
-- a timestamp transaction.
use Prim.Native.Nat.{zero, suc}
use mathlib.Core.Bool.{not, ◌&&◌}
use opentimestamps_server.Prelude.{
  ℕ, ◌+◌, Bool, true, false, Option, none, some, List, [], ◌∷◌, ◌++◌, Bytes, bytes_eq, length, ltb,
  ◌==◌, if◌then◌else◌,
}
use opentimestamps_server.Prelude.Int.{ℤ, above, eqz}
use opentimestamps_server.Stamper.{
  OutPoint, Tx, UnconfirmedTimestampTx, KnownBlock, Attempt, Stamper,
}
use opentimestamps_server.Stamper.Blocks.{Outcome, done, raised}
use opentimestamps_server.Stamper.Records.{count_tree_records}
use opentimestamps_server.Stamper.Wallet.{
  Unspent, Wallet, Found, found, index_error, raises, find_unspent, Rate, raise_rate, tx_template,
  update_timestamp_tx, get_tx_fee,
}

-- `signrawtransactionwithwallet`, and `sendrawtransaction` with the error code -26 apart.
pub data Sign : Type 0 where
  complete : Tx → Sign
  incomplete sign_raises : Sign

pub data Send : Type 0 where
  accepted refused send_raises : Send

-- The settings.
pub record Config : Type 0 where
  pub relay_feerate : Rate
  pub max_fee : ℕ
  pub receipts_on : Bool

-- The node's and the wallet's answers during a pass, those of the loop by its round; `none` is an
-- exception. `estimate` is the estimated feerate, `some none` where there is none.
pub record Node : Type 0 where
  pub wallet : Wallet
  pub change_script : Option Bytes
  pub sign_template : Tx → Sign
  pub estimate : Option (Option Rate)
  pub getblockcount : ℕ → Option ℕ
  pub gettxout : ℕ → OutPoint → Found ℕ
  pub sign : ℕ → Tx → Sign
  pub send : ℕ → Tx → Send

-- What the code takes of other libraries: the weight and the id of a transaction, and the message
-- of the merkle tree's tip; and the sidecar's counts.
pub record Library : Type 0 where
  pub weight : Tx → ℕ
  pub txid : Tx → Bytes
  pub tip_of : List Bytes → Bytes
  pub counts : ℕ → Option ℕ

-- How a round of the loop ends: with a sent transaction and its fee, with `return`, with an
-- exception, or with `continue` at a higher feerate.
pub data Round : Type 0 where
  sends : Tx → ℤ → Round
  stops fails : Stamper → Round
  again : Round

abbrev pub best_hash : List KnownBlock → Option Bytes
best_hash [] = none
best_hash (b ∷ bs) = some b.hash

abbrev pub same_tip : Option Bytes → Option Bytes → Bool
same_tip none none = true
same_tip none (some h) = false
same_tip (some g) none = false
same_tip (some g) (some h) = bytes_eq g h

-- `attempt == self.refused_anchor`
abbrev pub same_attempt : Attempt → Option Attempt → Bool
same_attempt a none = false
same_attempt a (some b) =
    bytes_eq a.prevout.hash b.prevout.hash
    && a.prevout.n == b.prevout.n
    && eqz a.fee b.fee
    && same_tip a.tip b.tip

abbrev pub after_send : Tx → Tx → Attempt → Stamper → Send → Round
after_send unsigned tx attempt s accepted = sends tx attempt.fee
after_send unsigned tx attempt s refused =
    if length unsigned.vout == 1 then stops (record s { refused_anchor = some attempt }) else again
after_send unsigned tx attempt s send_raises = fails s

abbrev pub after_sign : Node → ℕ → Tx → Attempt → Stamper → Sign → Round
after_sign n k unsigned attempt s (complete tx) = after_send unsigned tx attempt s (n.send k tx)
after_sign n k unsigned attempt s incomplete = stops s
after_sign n k unsigned attempt s sign_raises = fails s

abbrev pub try_attempt : Node → ℕ → Tx → ℤ → List OutPoint → Stamper → Round
try_attempt n k unsigned fee [] s = fails s
try_attempt n k unsigned fee (prevout ∷ vin) s =
    let attempt : Attempt = record {
      prevout = prevout;
      fee = fee;
      tip = best_hash s.known_blocks;
    } in
    if same_attempt attempt s.refused_anchor
    then stops s
    else after_sign n k unsigned attempt s (n.sign k unsigned)

-- A fee that cannot be told abandons the cycle that is under way.
abbrev pub priced : Config → Node → ℕ → Tx → Found ℤ → Stamper → Round
priced c n k unsigned (found fee) s =
    if above fee c.max_fee then stops s else try_attempt n k unsigned fee unsigned.vin s
priced c n k unsigned index_error s = stops (record s { unconfirmed_txs = [] })
priced c n k unsigned raises s = fails s

abbrev pub updated : Config → Node → ℕ → Option Tx → Stamper → Round
updated c n k none s = fails s
updated c n k (some unsigned) s = priced c n k unsigned (get_tx_fee (n.gettxout k) unsigned) s

abbrev pub at_height : Config → Node → Library → ℕ → Tx → Bytes → Rate → Option ℕ → Stamper → Round
at_height c n l k prev tip rate none s = fails s
at_height c n l k prev tip rate (some height) s =
    updated c n k (update_timestamp_tx l.weight prev tip height rate) s

unfoldable pub send_round : Config → Node → Library → ℕ → Tx → Bytes → Rate → Stamper → Round
send_round c n l k prev tip rate s = at_height c n l k prev tip rate (n.getblockcount k) s

-- The `while sent_tx is None`, with fuel for its rounds. `next` is the feerate before the next rise:
-- the first round of a new cycle leaves its estimate for the relay's rate.
unfoldable pub send_loop :
    ℕ → Config → Node → Library → ℕ → Tx → Bytes → Rate → Rate → Stamper → Round
send_loop zero c n l k prev tip rate next s = again
send_loop (suc fuel) c n l k prev tip rate next s = elim (send_round c n l k prev tip rate s) [
  | sends tx fee ↦ sends tx fee
  | stops t ↦ stops t
  | fails t ↦ fails t
  | again ↦ send_loop fuel c n l (k + 1) prev tip (raise_rate next) (raise_rate next) s
]

-- The new version, after the loop; `again` is a loop that goes on after its fuel.
abbrev pub finish_send : Library → Bytes → ℕ → Stamper → Round → Outcome × Stamper
finish_send l tip records s (sends tx fee) = (
  done,
  record s {
    refused_anchor = none;
    unconfirmed_txs =
        s.unconfirmed_txs
        ++ record {
          tx = tx;
          txid = l.txid tx;
          tip = tip;
          n = length s.pending_commitments;
          fee = fee;
          records = records;
        }
          ∷ [];
  },
)
finish_send l tip records s (stops t) = (done, t)
finish_send l tip records s (fails t) = (raised, t)
finish_send l tip records s again = (raised, s)

-- The tree over all pending commitments, its records, and the loop.
abbrev pub close_tree : Config → Library → Stamper → ℕ × Stamper
close_tree c l s =
    if c.receipts_on then count_tree_records l.counts s.pending_commitments s else (0, s)

unfoldable pub send_from :
    ℕ → Config → Node → Library → Tx → Rate → Rate → Stamper → Outcome × Stamper
unfolding send_loop
send_from fuel c n l prev rate next s =
    let tip = l.tip_of s.pending_commitments in
    let (records, t) = close_tree c l s in
    finish_send l tip records t (send_loop fuel c n l 0 prev tip rate next t)

abbrev pub initial_rate : Config → Option Rate → Rate
initial_rate c none = c.relay_feerate
initial_rate c (some rate) = rate

abbrev pub with_estimate :
    ℕ → Config → Node → Library → Tx → Option (Option Rate) → Stamper → Outcome × Stamper
with_estimate fuel c n l prev none s = (raised, s)
with_estimate fuel c n l prev (some estimate) s =
    send_from fuel c n l prev (initial_rate c estimate) c.relay_feerate s

abbrev pub with_template : ℕ → Config → Node → Library → Sign → Stamper → Outcome × Stamper
with_template fuel c n l (complete tx) s = with_estimate fuel c n l tx n.estimate s
with_template fuel c n l incomplete s = (done, s)
with_template fuel c n l sign_raises s = (raised, s)

abbrev pub with_change :
    ℕ → Config → Node → Library → Unspent → Option Bytes → Stamper → Outcome × Stamper
with_change fuel c n l u none s = (raised, s)
with_change fuel c n l u (some script) s =
    with_template fuel c n l (n.sign_template (tx_template u.outpoint u.amount script)) s

unfoldable pub last_of : Unspent → List Unspent → Unspent
last_of u [] = u
last_of u (v ∷ vs) = last_of v vs

-- The first transaction of a cycle spends `unspent[-1]`.
abbrev pub first_of_cycle :
    ℕ → Config → Node → Library → Option (List Unspent) → Stamper → Outcome × Stamper
first_of_cycle fuel c n l none s = (raised, s)
first_of_cycle fuel c n l (some []) s = (done, s)
first_of_cycle fuel c n l (some (u ∷ us)) s =
    with_change fuel c n l (last_of u us) n.change_script s

unfoldable pub last_tx : List UnconfirmedTimestampTx → Option Tx
last_tx [] = none
last_tx (u ∷ []) = some u.tx
last_tx (u ∷ v ∷ us) = last_tx (v ∷ us)

-- A bump of the cycle that is under way, or a new cycle.
abbrev pub send_cycle : ℕ → Config → Node → Library → Option Tx → Stamper → Outcome × Stamper
send_cycle fuel c n l (some prev) s = send_from fuel c n l prev c.relay_feerate c.relay_feerate s
send_cycle fuel c n l none s = first_of_cycle fuel c n l (find_unspent n.wallet) s

abbrev pub is_none : Option Tx → Bool
is_none none = true
is_none (some tx) = false

-- Nothing is pending: an idle clock moves on.
abbrev pub idle_pass : Bool → ℕ → Stamper → Stamper
idle_pass true departure s = record s { next_timestamp_tx = departure }
idle_pass false departure s = s

abbrev pub after_clock : ℕ → Config → Node → Library → ℕ → Stamper → Outcome × Stamper
after_clock fuel c n l departure s =
    if length s.pending_commitments == 0
    then (done, idle_pass (is_none (last_tx s.unconfirmed_txs)) departure s)
    else send_cycle fuel c n l (last_tx s.unconfirmed_txs) s

-- The rest of `__do_bitcoin`: `now` is the time of its test, `departure` the time of the next
-- departure from here, and `fresh` says that the pass had new blocks.
unfoldable pub send_pass : ℕ → Config → Node → Library → ℕ → ℕ → Bool → Stamper → Outcome × Stamper
unfolding send_from last_tx last_of
send_pass fuel c n l now departure fresh s =
    if not fresh && not (is_none (last_tx s.unconfirmed_txs))
    then (done, s)
    else if ltb now s.next_timestamp_tx
    then (done, s)
    else after_clock fuel c n l departure s
