-- ===== src/Stamper/Records.antt =====
-- otsserver/stamper.py: `__count_tree_records`, the number of records that a tree is billed for.
use opentimestamps_server.Prelude.{ℕ, ◌+◌, Option, none, some, List, [], ◌∷◌, Bytes}
use opentimestamps_server.Prelude.Dict.{lookup, insert}
use opentimestamps_server.Stamper.{Stamper}

-- `self.record_counts.get(idx)`, and what it found kept for the next time; `counts` is unknown
-- everywhere where anchor receipts are off.
abbrev pub keep_count : Bytes → Option ℕ → Stamper → Option ℕ × Stamper
keep_count msg none s = (none, s)
keep_count msg (some n) s =
    (some n, record s { commitment_records = insert msg n s.commitment_records })

abbrev pub read_again : (ℕ → Option ℕ) → Bytes → Option ℕ → Stamper → Option ℕ × Stamper
read_again counts msg none s = (none, s)
read_again counts msg (some idx) s = keep_count msg (counts idx) s

abbrev pub count_known : (ℕ → Option ℕ) → Bytes → Option ℕ → Stamper → Option ℕ × Stamper
count_known counts msg none s = read_again counts msg (lookup msg s.commitment_idxs) s
count_known counts msg (some n) s = (some n, s)

abbrev pub added : Option ℕ → ℕ
added none = 0
added (some n) = n

-- `__count_tree_records` on the commitments of a tree.
unfoldable pub count_tree_records : (ℕ → Option ℕ) → List Bytes → Stamper → ℕ × Stamper
count_tree_records counts [] s = (0, s)
count_tree_records counts (msg ∷ msgs) s =
    let one = count_known counts msg (lookup msg s.commitment_records) s in
    let rest = count_tree_records counts msgs one.1 in (added one.0 + rest.0, rest.1)
