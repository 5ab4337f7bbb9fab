-- ===== src/Stamper/Blocks.antt =====
-- otsserver/stamper.py: `__do_bitcoin` from the new headers to the last block's body.
use mathlib.Core.List.{reverse}
use opentimestamps_server.Prelude.{
  ℕ, Option, none, some, List, [], ◌∷◌, ◌++◌, Bytes, bytes_eq, elem, take, drop, ltb, if◌then◌else◌,
}
use opentimestamps_server.Prelude.NatDict
use opentimestamps_server.Prelude.NatDict.{NatDict}
use opentimestamps_server.Stamper.{
  Stamper, TimestampTx, UnconfirmedTimestampTx, KnownBlock, add_all,
}

below : ℕ → List KnownBlock → List KnownBlock
below fork [] = []
below fork (b ∷ bs) = let rest = below fork bs in if ltb b.height fork then b ∷ rest else rest

-- The queue of bodies to read after `update_from_proxy` returned `new_blocks`.
queued : List KnownBlock → List KnownBlock → List KnownBlock
queued old [] = old
queued old (b ∷ bs) = below b.height old ++ b ∷ bs

unfoldable pub enqueue_blocks : List KnownBlock → Stamper → Stamper
unfolding below queued
enqueue_blocks new_blocks s = record s {
  unprocessed_blocks = queued s.unprocessed_blocks new_blocks;
}

-- A tree waiting at this height was removed by a reorg: its commitments are pending again.
abbrev pub put_back : Option TimestampTx → ℕ → Stamper → Stamper
put_back none height s = s
put_back (some tx) height s = record s {
  pending_commitments = add_all s.pending_commitments tx.commitments;
  txs_waiting_for_confirmation = NatDict.erase height s.txs_waiting_for_confirmation;
}

unfoldable pub pop_reorged : ℕ → Stamper → Stamper
pop_reorged height s = put_back (NatDict.lookup height s.txs_waiting_for_confirmation) height s

-- The first transaction of the list that the block holds.
unfoldable pub find_mined : List Bytes → List UnconfirmedTimestampTx → Option UnconfirmedTimestampTx
find_mined block_txids [] = none
find_mined block_txids (tx ∷ txs) =
    if elem tx.txid block_txids then some tx else find_mined block_txids txs

-- A body that was read and processed, or an exception on the way, whose changes stay.
pub data Outcome : Type 0 where
  done raised : Outcome

-- What the pass takes from elsewhere: the tip's message of the merkle tree over commitments, and
-- the time of the next departure.
pub record Pass : Type 0 where
  pub tip_of : List Bytes → Bytes
  pub next_departure : ℕ

abbrev pub mine : Pass → ℕ → UnconfirmedTimestampTx → Stamper → Stamper
mine p height tx s = record s {
  pending_commitments = drop tx.n s.pending_commitments;
  txs_waiting_for_confirmation =
      NatDict.insert height
        (record {
          txid = tx.txid;
          commitments = take tx.n s.pending_commitments;
          fee = tx.fee;
          height = height;
          records = tx.records;
        })
        s.txs_waiting_for_confirmation;
  unconfirmed_txs = [];
  next_timestamp_tx = p.next_departure;
}

-- `assert tip_timestamp.msg == unconfirmed_tx.tip_timestamp.msg`, and the transaction found.
abbrev pub confirm : Pass → ℕ → Option UnconfirmedTimestampTx → Stamper → Outcome × Stamper
confirm p height none s = (done, s)
confirm p height (some tx) s =
    if bytes_eq (p.tip_of (take tx.n s.pending_commitments)) tx.tip
    then (done, mine p height tx s)
    else (raised, s)

-- One block, its body given by its transactions' ids; `none` is a body that cannot be read.
abbrev pub read_body : Pass → KnownBlock → Option (List Bytes) → Stamper → Outcome × Stamper
read_body p b none s = (raised, s)
read_body p b (some block_txids) s =
    confirm p b.height (find_mined block_txids (reverse s.unconfirmed_txs)) s

unfoldable pub process_block : Pass → KnownBlock → Option (List Bytes) → Stamper → Outcome × Stamper
process_block p b body s = read_body p b body (pop_reorged b.height s)

-- `del self.unprocessed_blocks[0]`
abbrev pub retire : Stamper → Stamper
retire s = record s { unprocessed_blocks = drop 1 s.unprocessed_blocks }

-- The `while self.unprocessed_blocks`: the bodies are those that the node gives, by hash.
unfoldable pub process_queue :
    Pass → (Bytes → Option (List Bytes)) → List KnownBlock → Stamper → Outcome × Stamper
process_queue p body [] s = (done, s)
process_queue p body (b ∷ bs) s =
    let (r, s') = process_block p b (body b.hash) s in
    elim r [ done ↦ process_queue p body bs (retire s') | raised ↦ (raised, s') ]

unfoldable pub process_blocks : Pass → (Bytes → Option (List Bytes)) → Stamper → Outcome × Stamper
process_blocks p body s = process_queue p body s.unprocessed_blocks s
