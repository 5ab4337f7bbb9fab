-- ===== src/Tests/Anchors.antt =====
-- One journal entry on its way from the journal to the database.
use mathlib.Core.Option.{some-injective}
use opentimestamps_server.Prelude.{
  ℕ, zero, suc, ◌≤◌, ◌<◌, ◌≡◌, refl, ap, subst, true, false, Option, none, some, [], ◌∷◌, Bytes,
  bytes_eq, bytes_eq_iff, codes, elem, Bool-cases, inl, inr, ◌⊎◌, arith, is_some,
}
use opentimestamps_server.Prelude.Int.{pos}
use opentimestamps_server.Prelude.Dict.{lookup}
use opentimestamps_server.Prelude.NatDict
use opentimestamps_server.Stamper.{Stamper, TimestampTx}
use opentimestamps_server.Stamper.Fill.{Read, entry, key_error, raises, Reads, fill_pending}
use opentimestamps_server.Stamper.Coverage.{IsComplete, IsFaithful, fill_pending-IsComplete}
use opentimestamps_server.Stamper.Blocks.{Pass, process_blocks}
use opentimestamps_server.Stamper.Reorg.{process_blocks-IsComplete}
use opentimestamps_server.Stamper.Save.{Calendar, SaveDisk, save_mature_trees}
use opentimestamps_server.Stamper.Saves.{IsSound, IsSoundPair, save_mature_trees-IsSound}
use opentimestamps_server.Stamper.Pending.{is_pending}
use opentimestamps_server.Stamper.Records.{count_tree_records}
use opentimestamps_server.Stamper.Billed.{IsCounted, total, count_tree_records_undercounts}
use opentimestamps_server.Stamper.Reasons.{is_pending-IsComplete}

abbrev pub commitment : Bytes
commitment = codes "commitment"

-- A journal of one entry.
abbrev pub journal : ℕ → Option Bytes
journal zero = some commitment
journal (suc i) = none

abbrev pub journal_reads : ℕ → Read
journal_reads zero = entry commitment
journal_reads (suc i) = key_error

abbrev pub reads : Reads
reads = record { journal = journal_reads; in_calendar = λ c. some false; count = λ i. some 3 }

abbrev pub text_of : Read → Option Bytes
text_of (entry c) = some c
text_of key_error = none
text_of raises = none

reads-IsFaithful : IsFaithful journal [] reads
reads-IsFaithful = record {
  entries = told;
  members = λ c b e. unfold elem in some-injective false b e;
}
  where
    told : (i : ℕ) (c : Bytes) → journal_reads i ≡ entry c → journal i ≡ some c
    told zero c e = ap text_of e
    told (suc i) c e = cc

abbrev pub started : Stamper
started = record {
  pending_commitments = [];
  txs_waiting_for_confirmation = [];
  unconfirmed_txs = [];
  unprocessed_blocks = [];
  commitment_idxs = [];
  commitment_records = [];
  journal_cursor = 0;
  next_timestamp_tx = 0;
  known_blocks = [];
  refused_anchor = none;
}

started-IsComplete : IsComplete journal [] 0 started
unfolding lookup
started-IsComplete = record {
  indexed = λ i c lt e. absurd (omega arith);
  outstanding = λ c j e. cc;
  below = tt;
}

fill_pending-IsComplete_example :
    let s = fill_pending 5 1000 reads started in IsComplete journal [] s.journal_cursor s
fill_pending-IsComplete_example =
    fill_pending-IsComplete journal [] reads reads-IsFaithful 5 1000 started started-IsComplete

-- The commitment rides in a transaction of block 100, whose body a reorg replaces.
abbrev pub tree : TimestampTx
tree = record {
  txid = codes "tx";
  commitments = commitment ∷ [];
  fee = pos 200;
  height = 100;
  records = 3;
}

abbrev pub mined : Stamper
mined = record started {
  txs_waiting_for_confirmation = (100, tree) ∷ [];
  unprocessed_blocks = (record { height = 100; hash = codes "h" }) ∷ [];
  commitment_idxs = (commitment, 0) ∷ [];
  commitment_records = (commitment, 3) ∷ [];
  journal_cursor = 1;
}

in_tree : elem commitment (commitment ∷ []) ≡ true
unfolding elem bytes_eq
in_tree = refl

waits : NatDict.lookup 100 mined.txs_waiting_for_confirmation ≡ some tree
unfolding NatDict.lookup
waits = refl

found_first :
    (i : ℕ) (c : Bytes) → i < 1 → journal i ≡ some c → lookup c mined.commitment_idxs ≡ some 0
unfolding lookup
found_first zero c lt e = rw ((bytes_eq_iff commitment c).1 (some-injective commitment c e)) refl
found_first (suc i) c lt e = absurd (omega arith)

only_commitment : (c : Bytes) (j : ℕ) → lookup c mined.commitment_idxs ≡ some j → commitment ≡ c
unfolding lookup
only_commitment c j e = elim (Bool-cases (bytes_eq commitment c)) [
  | inl same ↦ (bytes_eq_iff commitment c).0 same
  | inr other ↦ absurd (nothing (rw other at e))
]
  where
    nothing : ◌≡◌ {A = Option ℕ} none (some j) → ⊥
    nothing e = cc

pub mined-IsComplete : IsComplete journal [] 1 mined
mined-IsComplete = record {
  indexed = λ i c lt e. inr (0, found_first i c lt e, omega arith);
  outstanding = λ c j e. inr (
    100,
    tree,
    waits,
    subst (λ z. elem z tree.commitments ≡ true) (only_commitment c j e) in_tree,
  );
  below = (omega arith, tt);
}

abbrev pub pass : Pass
pass = record { tip_of = λ cs. codes "tip"; next_departure = 30 }

process_blocks-IsComplete_example :
    IsComplete journal [] 1 (process_blocks pass (λ h. some []) mined).1
process_blocks-IsComplete_example =
    process_blocks-IsComplete journal [] 1 pass (λ h. some []) mined mined-IsComplete

abbrev pub calendar : Calendar
calendar = record { held = []; watermark = 0; known_good = none }

mined-IsSound : IsSound journal mined calendar
mined-IsSound = record {
  complete = mined-IsComplete;
  watermark = λ i c lt e. absurd (omega arith);
  known_good = λ k e. cc;
}

abbrev pub disk : SaveDisk
disk = record { saves = λ h. true; checkpoints = λ h. true; nodes = λ h. codes "node" ∷ [] }

save_mature_trees-IsSound_example :
    IsSoundPair journal (save_mature_trees disk 105 6 (mined, calendar))
save_mature_trees-IsSound_example =
    save_mature_trees-IsSound journal disk 105 6 mined calendar mined-IsSound

dense : (k : ℕ) → k ≤ 0 → is_some (journal k) ≡ true
dense zero le = refl
dense (suc k) le = absurd (omega arith)

is_pending-IsComplete_example :
    ((elem commitment [] ≡ true)
      ⊎ (is_some (is_pending 5 journal 6 (some 1) mined commitment) ≡ true))
    × (is_pending 5 journal 6 none
          (record mined { pending_commitments = []; txs_waiting_for_confirmation = [] })
          commitment
        ≡ none)
is_pending-IsComplete_example =
    is_pending-IsComplete 5 6 0 journal [] mined commitment mined-IsComplete dense refl
      (omega arith)

three_counted : (c : Bytes) (n : ℕ) → lookup c mined.commitment_records ≡ some n → n ≤ 3
unfolding lookup
three_counted c n e = elim (Bool-cases (bytes_eq commitment c)) [
  | inl same ↦ (let three : 3 ≡ n = some-injective 3 n (rw same at e) in omega arith)
  | inr other ↦ absurd (nothing (rw other at e))
]
  where
    nothing : ◌≡◌ {A = Option ℕ} none (some n) → ⊥
    nothing u = cc

mined-IsCounted : IsCounted (λ c. 3) (λ i. some 2) mined
mined-IsCounted = record {
  kept = three_counted;
  on_file = λ c i n at e. let two : 2 ≡ n = some-injective 2 n e in omega arith;
}

count_tree_records_undercounts_example :
    let (n, s') = count_tree_records (λ i. some 2) (commitment ∷ codes "lost" ∷ []) mined in
    (n ≤ total (λ c. 3) (commitment ∷ codes "lost" ∷ [])) × IsCounted (λ c. 3) (λ i. some 2) s'
count_tree_records_undercounts_example =
    count_tree_records_undercounts (λ c. 3) (λ i. some 2) (commitment ∷ codes "lost" ∷ []) mined
      mined-IsCounted
