-- ===== src/Stamper.antt =====
-- otsserver/stamper.py: the state of `Stamper`, and the calendar and the files that it shares.
-- Commitments, transaction ids and block hashes are byte strings.
pub mod Fill
pub mod Blocks
pub mod Save
pub mod Coverage
pub mod Reorg
pub mod Watermark
pub mod Saves
pub mod Pending
pub mod Reasons
pub mod Records
pub mod Billed
pub mod Headers
pub mod Discovery
pub mod Quiet
pub mod Wallet
pub mod Sending
pub mod Sends
pub mod Passes
pub mod Bumps
use mathlib.Core.Bool.{not, ◌||◌}
use opentimestamps_server.Prelude.{
  ℕ, Bool, true, false, Option, none, some, List, [], ◌∷◌, ◌++◌, Bytes, elem, if◌then◌else◌,
}
use opentimestamps_server.Prelude.Int.{ℤ}
use opentimestamps_server.Prelude.Dict.{Dict}
use opentimestamps_server.Prelude.NatDict.{NatDict}

pub record OutPoint : Type 0 where
  pub hash : Bytes
  pub n : ℕ

-- The scripts that the stamper makes: the wallet's, and `CScript([OP_RETURN, ...])`.
pub data Script : Type 0 where
  wallet_script op_return : Bytes → Script

pub record TxOut : Type 0 where
  pub value : ℤ
  pub script : Script

-- `CTransaction`, of which every input has the sequence number of the template.
pub record Tx : Type 0 where
  pub vin : List OutPoint
  pub vout : List TxOut
  pub lock_time : ℕ

-- `TimestampTx`: a mined transaction, with the commitments of its tree.
pub record TimestampTx : Type 0 where
  pub txid : Bytes
  pub commitments : List Bytes
  pub fee : ℤ
  pub height : ℕ
  pub records : ℕ

-- `UnconfirmedTimestampTx`: a sent transaction over the first `n` pending commitments; `tip` is
-- the message of its tree's tip, and `txid` is `tx.GetTxid()`.
pub record UnconfirmedTimestampTx : Type 0 where
  pub tx : Tx
  pub txid : Bytes
  pub tip : Bytes
  pub n : ℕ
  pub fee : ℤ
  pub records : ℕ

pub record KnownBlock : Type 0 where
  pub height : ℕ
  pub hash : Bytes

-- What the node refused: the output that was spent, the fee, and the tip of the chain then.
pub record Attempt : Type 0 where
  pub prevout : OutPoint
  pub fee : ℤ
  pub tip : Option Bytes

-- The stamper once its first read of the journal is over: `journal_cursor` is `None` before.
pub record Stamper : Type 0 where
  pub pending_commitments : List Bytes
  pub txs_waiting_for_confirmation : NatDict TimestampTx
  pub unconfirmed_txs : List UnconfirmedTimestampTx
  pub unprocessed_blocks : List KnownBlock
  pub commitment_idxs : Dict ℕ
  pub commitment_records : Dict ℕ
  pub journal_cursor : ℕ
  pub next_timestamp_tx : ℕ
  pub known_blocks : List KnownBlock
  pub refused_anchor : Option Attempt

-- `OrderedSet.add`: a dict keeps the place of a key that it has.
unfoldable pub add : List Bytes → Bytes → List Bytes
add set item = if elem item set then set else set ++ item ∷ []

unfoldable pub add_all : List Bytes → List Bytes → List Bytes
unfolding add
add_all set [] = set
add_all set (c ∷ cs) = add_all (add set c) cs
