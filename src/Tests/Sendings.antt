-- ===== src/Tests/Sendings.antt =====
-- A wallet of one output, and a node that refuses the first attempt.

use opentimestamps_server.Prelude.{
  ℕ, zero, suc, ◌*◌, ◌≡◌, refl, true, false, none, some, List, [], ◌∷◌, arith,
}
use opentimestamps_server.Prelude.Int.{ℤ, pos}
use opentimestamps_server.Stamper.{Tx, UnconfirmedTimestampTx, Stamper, wallet_script}
use opentimestamps_server.Stamper.Wallet.{
  Unspent, Wallet, found, find_unspent, sorted, filter_unspent, update_timestamp_tx, get_tx_fee,
}
use opentimestamps_server.Stamper.Sending.{
  complete, Send, accepted, refused, Config, Node, Library, send_round, send_loop, send_pass,
}
use opentimestamps_server.Stamper.Passes.{IsOutcome, send_pass-IsOutcome}
use opentimestamps_server.Stamper.Bumps.{IsEnded, change_of, send_loop_ends}
use opentimestamps_server.Tests.Anchors.{commitment, started}

abbrev coin : Unspent
coin = record { outpoint = record { hash = 1 ∷ []; n = 0 }; amount = 10000; spendable = true }

abbrev wallet : Wallet
wallet = record {
  confirmed = some (coin ∷ []);
  unconfirmed = some [];
  getrawtransaction = λ h. none;
  gettxout = λ o. found 10000;
  gettransaction = λ h. found tt;
}

abbrev answer : ℕ → Send
answer zero = refused
answer (suc k) = accepted

abbrev node : Node
node = record {
  wallet = wallet;
  change_script = some (7 ∷ []);
  sign_template = complete;
  estimate = some none;
  getblockcount = λ k. some 100;
  gettxout = λ k o. found 10000;
  sign = λ k tx. complete tx;
  send = λ k tx. answer k;
}

abbrev config : Config
config = record { relay_feerate = record { num = 2; den = 1 }; max_fee = 5000; receipts_on = false }

abbrev library : Library
library = record {
  weight = λ tx. 600;
  txid = λ tx. 3 ∷ [];
  tip_of = λ cs. 4 ∷ [];
  counts = λ i. some 1;
}

abbrev waiting : Stamper
waiting = record started { pending_commitments = commitment ∷ [] }

abbrev fees : List UnconfirmedTimestampTx → List ℤ
fees [] = []
fees (u ∷ us) = u.fee ∷ fees us

-- The second attempt, at a quarter more than the relay's rate, is sent.
sent_fee : fees (send_pass 3 config node library 9 20 true waiting).1.unconfirmed_txs ≡ pos 376 ∷ []
unfolding send_pass find_unspent sorted filter_unspent send_round update_timestamp_tx get_tx_fee
sent_fee = refl

send_pass-IsOutcome_example :
    IsOutcome config node library 9 true waiting
      (send_pass 3 config node library 9 20 true waiting).1
send_pass-IsOutcome_example = send_pass-IsOutcome 3 config node library 9 20 true waiting

abbrev small : Tx
small = record {
  vin = record { hash = 1 ∷ []; n = 0 } ∷ [];
  vout = record { value = pos 2; script = wallet_script [] } ∷ [];
  lock_time = 0;
}

send_loop_ends_example : IsEnded (
    send_loop
      (suc (suc (6 * (change_of small.vout * 1))))
      config
      node
      library
      0
      small
      (4 ∷ [])
      (record { num = 2; den = 1 })
      (record { num = 2; den = 1 })
      waiting)
send_loop_ends_example =
    send_loop_ends config node library small (4 ∷ []) (record { num = 2; den = 1 })
      (record { num = 2; den = 1 }) waiting (omega arith) (omega arith)
