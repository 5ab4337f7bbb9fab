-- ===== src/System.antt =====
-- The stamper and what outlives it, as one system: the journal that the aggregator appends to, the
-- calendar and its checkpoint, and the process that stops at any moment and starts again.
-- otsserver/stamper.py: the order of a turn in `Stamper.__loop` and `__do_bitcoin`; a step is a part
-- of a turn, so a stop between any two of them is a sequence of steps.
pub mod Bounds
pub mod Steps
pub mod Reach
use opentimestamps_server.Prelude.{
  ℕ, Bool, Option, none, some, List, [], ◌∷◌, ◌++◌, Bytes, get_elem?, length, ◌≡◌,
}
use opentimestamps_server.Stamper.{Stamper, KnownBlock}
use opentimestamps_server.Stamper.Fill.{Reads, fill_pending}
use opentimestamps_server.Stamper.Blocks.{Outcome, Pass, enqueue_blocks, process_blocks}
use opentimestamps_server.Stamper.Headers.{Proxy, update_from_proxy}
use opentimestamps_server.Stamper.Save.{Calendar, SaveDisk, save_tree}
use opentimestamps_server.Stamper.Sending.{Config, Node, Library, send_pass}
use opentimestamps_server.Stamper.Coverage.{IsFaithful}

-- `stamper` is `none` while the process is down.
pub record System : Type 0 where
  pub journal : List Bytes
  pub calendar : Calendar
  pub stamper : Option Stamper

-- A calendar directory that was created just now.
abbrev pub created : System
created = record {
  journal = [];
  calendar = record { held = []; watermark = 0; known_good = none };
  stamper = none;
}

-- `idx = checkpoint[0] if checkpoint else 0`
abbrev pub start_index : Option ℕ → ℕ
start_index none = 0
start_index (some idx) = idx

-- The state of `Stamper.__init__`, with the index of `__open`.
unfoldable pub started_at : ℕ → ℕ → Stamper
started_at departure idx = record {
  pending_commitments = [];
  txs_waiting_for_confirmation = [];
  unconfirmed_txs = [];
  unprocessed_blocks = [];
  commitment_idxs = [];
  commitment_records = [];
  journal_cursor = idx;
  next_timestamp_tx = departure;
  known_blocks = [];
  refused_anchor = none;
}

abbrev pub with_known : Option (List KnownBlock) × List KnownBlock → Stamper → Stamper
with_known (none, known) s = record s { known_blocks = known }
with_known (some new, known) s = enqueue_blocks new (record s { known_blocks = known })

-- `new_blocks = self.known_blocks.update_from_proxy(proxy)`, and the queue of bodies after it.
unfoldable pub discover : ℕ → Proxy → Stamper → Stamper
discover fuel p s = with_known (update_from_proxy fuel p s.known_blocks) s

abbrev pub saved_system : System → Stamper × Calendar → System
saved_system y (s, cal) = record y { stamper = some s; calendar = cal }

-- The steps. A start takes the checkpoint that is on file; the operator may delete that file.
pub data Step (y z : System) : Type 0 where
  append : (c : Bytes) → z ≡ record y { journal = y.journal ++ c ∷ [] } → Step y z
  start :
      (departure : ℕ)
      → y.stamper ≡ none
      → z ≡ record y { stamper = some (started_at departure (start_index y.calendar.known_good)) }
      → Step y z
  stop : z ≡ record y { stamper = none } → Step y z
  delete : z ≡ record y { calendar = record y.calendar { known_good = none } } → Step y z
  fill :
      (s : Stamper) (fuel max_pending : ℕ) (r : Reads)
      → y.stamper ≡ some s
      → IsFaithful (get_elem? y.journal) y.calendar.held r
      → z ≡ record y { stamper = some (fill_pending fuel max_pending r s) }
      → Step y z
  headers :
      (s : Stamper) (fuel : ℕ) (p : Proxy)
      → y.stamper ≡ some s
      → z ≡ record y { stamper = some (discover fuel p s) }
      → Step y z
  blocks :
      (s : Stamper) (p : Pass) (body : Bytes → Option (List Bytes))
      → y.stamper ≡ some s
      → z ≡ record y { stamper = some (process_blocks p body s).1 }
      → Step y z
  save :
      (s : Stamper) (disk : SaveDisk) (height : ℕ)
      → y.stamper ≡ some s
      → z ≡ saved_system y (save_tree disk height (s, y.calendar))
      → Step y z
  send :
      (s : Stamper) (fuel : ℕ) (c : Config) (n : Node) (l : Library) (now departure : ℕ)
      (fresh : Bool)
      → y.stamper ≡ some s
      → z ≡ record y { stamper = some (send_pass fuel c n l now departure fresh s).1 }
      → Step y z

-- What a calendar comes to, from its creation on.
pub data IsReachable : System → Type 0 where
  first : IsReachable created
  after : {y z : System} → IsReachable y → Step y z → IsReachable z
