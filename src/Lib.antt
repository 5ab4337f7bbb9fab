-- ===== src/Lib.antt =====
-- otsserver: the calendar server of OpenTimestamps, from a submitted digest to its receipt.
--
-- The server takes digests over HTTP (otsserver/rpc.py). The aggregator (otsserver/calendar.py) puts
-- those of a round under one merkle root and appends the root's commitment to the journal. The
-- stamper (otsserver/stamper.py) reads the journal, keeps what the database lacks as pending, sends
-- it in Bitcoin transactions, follows the chain through reorgs, and, once a transaction is deep
-- enough, saves its timestamps in the database with a watermark, writes a receipt and a checkpoint
-- from which the next start goes on. The start compares the checkpoint with the database and the
-- journal before it appends to either.
--
-- Files and the code that they model:
--   Keys         otsserver/calendar.py, derive_key_for_idx
--   Journal      otsserver/calendar.py, Journal and JournalWriter: a file is its bytes
--   Counts       otsserver/calendar.py, RecordCounts and RecordCountsWriter: the sidecar's slots
--   Checkpoint   otsserver/calendar.py, read_checkpoint and write_checkpoint
--   Database     otsserver/calendar.py, LevelDbCalendar: its identity and membership, and the
--                writes of timestamps and their merges (Timestamps)
--   Startup      otsserver/calendar.py, Calendar.__check_counts, __check_journal and
--                verify_storage_generation; a refusal is an end with its reason
--   Submission   otsserver/calendar.py, Calendar.submit and best_block_hash
--   Aggregator   otsserver/calendar.py, Aggregator: submit and the two halves of a round of
--                __loop, the drain and the commitment, as steps on its state
--   Stamper      otsserver/stamper.py, the state of Stamper. Its children model the read of the
--                journal (Fill), the blocks and reorgs (Blocks), the save of mature trees and the
--                checkpoint (Save), is_pending (Pending), KnownBlocks (Headers), the count of a
--                tree's records (Records), find_unspent, the fees and the making of transactions
--                (Wallet), and the rest of __do_bitcoin, which sends them (Sending); its other children hold the proofs
--   System       otsserver/stamper.py, __open, __init__ and the order of __loop: the journal, the
--                calendar and the stamper as one system, from a calendar's creation on
--   Receipts     otsserver/stamper.py, the receipts file, the markers, settle_pending_receipt and
--                __save_confirmed_timestamp_tx
--   Rpc          otsserver/rpc.py, post_digest, get_tip, get_timestamp, do_POST and do_GET
--   VerifyClaim  ops/verify_claim.py, parse_proof: the tool that reads the proofs a calendar serves
--   Prelude      byte strings, files, dicts in insertion order, sets, and their lemmas
--   Tests        concrete files, states and requests
--
-- A byte is a number, and a text is its bytes. A dict is an association list in insertion order. A
-- failure of a disk is an argument: it says which write is refused, and how much of it had landed.
-- The time and every random value are arguments too. SHA-256, the merkle tree's tip, the
-- serialization of the opentimestamps package and the node's answers are parameters.
--
-- Fuel: Stamper.Fill.fill takes the number of rounds of a turn, which may end after any round.
-- Stamper.Pending.scan takes the number of journal entries that it may read; as many as there are
-- from the cursor on are enough. Stamper.Headers.update_from_proxy takes the number of its scan's
-- rounds; on a chain that stands still, two more than the height of the tip are enough.
-- Stamper.Sending.send_loop takes the number of its rounds; six times the value of the old
-- transaction's first output and the denominator of the relay's rate, and two more, are enough.
-- VerifyClaim.walk takes the number of its rounds; one more than the bytes that are left are
-- enough. Every other loop is a structural recursion or one on a well-founded order.
--
-- Numbers: an amount is a whole number of satoshis, and an integer where it can fall below zero. A
-- feerate is the exact quotient of two numbers, where the code has a float. A record count is a
-- 32-bit integer, written in four bytes; a checkpoint's index has at most twenty digits. Other
-- numbers are Python's, without a bound.
--
-- Not modelled: LevelDbCalendar.__getitem__, the deep-reorg detector, get_status, logging, the marker
-- under its old single name (before 2026-09-16), and the programs under ops/ but the parser of proofs.
-- Logging changes nothing that is modelled. The save in Stamper.Save and the receipt in Receipts are
-- two views of one call: the first follows the journal entries, the second the receipts.
pub mod Prelude
pub mod Counts
pub mod Journal
pub mod Checkpoint
pub mod Database
pub mod Keys
pub mod Startup
pub mod Aggregator
pub mod Stamper
pub mod System
pub mod Rpc
pub mod Submission
pub mod Receipts
pub mod VerifyClaim
pub mod Tests
