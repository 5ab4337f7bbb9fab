-- ===== src/Aggregator.antt =====
-- otsserver/calendar.py: `Aggregator`. A call of `submit` is two steps, what it does under the lock
-- and what it does after its wait. A round of `__loop` is two steps as well, the drain of the queue
-- up to the moment at which it is seen empty, and what follows the commitment of the tree; the
-- loop holds no lock, so other calls of `submit` come between the two. Times are whole ticks of the
-- clock, and a `Timestamp` or an `Event` is the number of the object.
pub mod Purge
pub mod Dedupe
pub mod Attached
pub mod Resubmit
pub mod Rounds
use Prim.Native.Nat.{zero, suc}
use mathlib.Core.Bool.{not, ◌||◌}
use opentimestamps_server.Prelude.{
  ℕ, ◌+◌, Bool, true, false, Option, none, some, List, [], ◌∷◌, ◌++◌, map, Bytes, bytes_eq, length,
  ltb, ◌==◌, if◌then◌else◌,
}
use opentimestamps_server.Prelude.Dict.{Dict, lookup, erase}

-- A value of `_recent`: (expires_at, timestamp, done_event).
pub record Recent : Type 0 where
  pub expires_at : ℕ
  pub timestamp : ℕ
  pub done_event : ℕ

-- An item of `digest_queue`; `digest` is the message of the nonced timestamp.
pub record Item : Type 0 where
  pub digest : Bytes
  pub done_event : ℕ
  pub counted : Bool

pub record Aggregator : Type 0 where
  pub dedupe_horizon : ℕ
  pub dedupe_max_entries : ℕ
  pub digest_queue : List Item
  pub recent : Dict Recent
  -- the events that have been set, and the number of objects made so far
  pub set_events : List ℕ
  pub made : ℕ
  pub failure : Bool
  pub exit_event : Bool

pub data Submitted : Type 0 where
  attached : Recent → Submitted
  unavailable : Submitted

-- The purge at the front of `_recent`.
unfoldable pub purge : ℕ → Dict Recent → Dict Recent
purge now [] = []
purge now ((k, e) ∷ d) = let rest = purge now d in if ltb now e.expires_at then (k, e) ∷ d else rest

-- `del self._recent[next(iter(self._recent))]` where there are too many.
unfoldable pub evict : ℕ → Dict Recent → Dict Recent
evict limit [] = []
evict limit (e ∷ d) = if ltb limit (length (e ∷ d)) then d else e ∷ d

-- The branch of a message that was submitted inside the horizon: back with a fresh expiry.
abbrev pub refreshed : ℕ → Aggregator → Recent → Recent
refreshed now a e = record e { expires_at = now + a.dedupe_horizon }

reattach : ℕ → Bytes → Dict Recent → Recent → Aggregator → Submitted × Aggregator
reattach now msg others e a =
    (attached (refreshed now a e), record a { recent = others ++ (msg, refreshed now a e) ∷ [] })

-- The branch of a new message: two new objects, an entry, an eviction and an item for the loop.
abbrev pub fresh : ℕ → Aggregator → Recent
fresh now a = record {
  expires_at = now + a.dedupe_horizon;
  timestamp = a.made;
  done_event = a.made;
}

enqueue : ℕ → Bytes → Bytes → Bool → Dict Recent → Aggregator → Submitted × Aggregator
enqueue now msg nonced counted others a = (
  attached (fresh now a),
  record a {
    digest_queue =
        a.digest_queue ++ (record { digest = nonced; done_event = a.made; counted = counted }) ∷ [];
    recent = evict a.dedupe_max_entries (others ++ (msg, fresh now a) ∷ []);
    made = a.made + 1;
  },
)

submit_known :
    ℕ → Bytes → Bytes → Bool → Dict Recent → Option Recent → Aggregator → Submitted × Aggregator
submit_known now msg nonced counted others none a = enqueue now msg nonced counted others a
submit_known now msg nonced counted others (some e) a = reattach now msg others e a

-- `submit` up to the release of the lock; `nonced` is the message of `nonce_timestamp(timestamp)`,
-- which is made only for a new entry.
unfoldable pub submit : ℕ → Bytes → Bytes → Bool → Aggregator → Submitted × Aggregator
unfolding reattach enqueue submit_known
submit now msg nonced counted a =
    if a.failure || a.exit_event
    then (unavailable, a)
    else submit_known now msg nonced counted (erase msg (purge now a.recent))
        (lookup msg (purge now a.recent)) a

-- `submit` after its wait: `woken` is what `done_event.wait(submit_timeout)` returns. The result is
-- the timestamp; `none` is `AggregatorUnavailable`.
unfoldable pub finish : Bool → Aggregator → Recent → Option ℕ
finish woken a e = if not woken then none else if a.failure then none else some e.timestamp

-- `if counted: records += 1` over the items of a round.
unfoldable pub records_of : List Item → ℕ
records_of [] = 0
records_of (i ∷ q) = (if i.counted then 1 else 0) + records_of q

-- What a round gives to `calendar.submit`: the digests, and the number of records.
pub record Round : Type 0 where
  pub digests : List Bytes
  pub records : ℕ

abbrev pub round_of : List Item → Round
round_of q = record { digests = map (λ (i : Item). i.digest) q; records = records_of q }

-- `__loop` once its wait is over: it ends when the exit event is set, and else takes the queue.
unfoldable pub drain : Aggregator → List Item × Aggregator
drain a = if a.exit_event then ([], a) else (a.digest_queue, record a { digest_queue = [] })

-- `done_event.set()` for each of `done_events`.
wake : List Item → Aggregator → Aggregator
wake q a = record a { set_events = map (λ (i : Item). i.done_event) q ++ a.set_events }

-- The rest of the round on the items that it took, in the state of that moment; `commits` says
-- whether the tree and `calendar.submit` return, or raise. A round without items goes on.
unfoldable pub commit : Bool → List Item → Aggregator → Aggregator
unfolding wake
commit commits [] a = a
commit true (i ∷ q) a = wake (i ∷ q) a
commit false (i ∷ q) a = wake (i ∷ q) (record a { failure = true; exit_event = true })
