-- ===== src/Aggregator/Rounds.antt =====
-- otsserver/calendar.py: a round of `Aggregator.__loop`, whole or failed.
use mathlib.Core.Bool.{◌||◌}
use opentimestamps_server.Prelude.{
  ℕ, ◌<◌, ◌≡◌, ◌≤◌, refl, Bool, true, false, Option, none, some, List, [], ◌∷◌, ◌++◌, map, Bytes,
  length, if◌then◌else◌, ◌==◌, arith, Bool-cases, inl, inr,
}
use opentimestamps_server.Prelude.Dict.{Dict, lookup, erase}
use opentimestamps_server.Aggregator.{
  Recent, Item, Aggregator, unavailable, purge, submit, submit_known, finish, round_of, records_of,
  drain, commit,
}
use opentimestamps_server.Aggregator.Resubmit.{Call, submit_all}

-- Is the event among these?
unfoldable pub mem : ℕ → List ℕ → Bool
mem n [] = false
mem n (m ∷ ms) = m == n || mem n ms

abbrev events_of : List Item → List ℕ
events_of q = map (λ (i : Item). i.done_event) q

mem-nil : (n : ℕ) → mem n [] ≡ false
unfolding mem
mem-nil n = refl

mem-append : (n : ℕ) (xs ys : List ℕ) → mem n (xs ++ ys) ≡ (mem n xs || mem n ys)
unfolding mem
mem-append n [] ys = refl
mem-append n (x ∷ xs) ys = ground (arith, mem-append n xs ys)

-- Every event that was made is set, or its item is in the queue.
pub record IsCovered (a : Aggregator) : Type 0 where
  pub event : (n : ℕ) → n < a.made → (mem n a.set_events || mem n (events_of a.digest_queue)) ≡ true

events-snoc :
    (n : ℕ) (q : List Item) (i : Item)
    → mem n (events_of (q ++ i ∷ [])) ≡ (mem n (events_of q) || i.done_event == n)
unfolding mem
events-snoc n [] i = ground arith
events-snoc n (j ∷ q) i = ground (arith, events-snoc n q i)

submit_known-IsCovered :
    (now : ℕ) (msg nonced : Bytes) (counted : Bool) (others : Dict Recent) (o : Option Recent)
    (a : Aggregator)
    → IsCovered a
    → IsCovered (submit_known now msg nonced counted others o a).1
unfolding submit
submit_known-IsCovered now msg nonced counted others none a h = record {
  event = λ n lt.
      rw
        (events-snoc n a.digest_queue
          (record { digest = nonced; done_event = a.made; counted = counted }))
        (ground (arith, h.event n));
}
submit_known-IsCovered now msg nonced counted others (some e) a h = record { event = h.event }

-- A submission keeps it: a waiter is never left without an item or a set event.
pub submit-IsCovered :
    (now : ℕ) (msg nonced : Bytes) (counted : Bool) (a : Aggregator)
    → IsCovered a
    → IsCovered (submit now msg nonced counted a).1
unfolding submit
submit-IsCovered now msg nonced counted a h = elim (Bool-cases (a.failure || a.exit_event)) [
  | inl stopped ↦ rw stopped h
  | inr runs ↦ rw runs (
      submit_known-IsCovered now msg nonced counted (erase msg (purge now a.recent))
        (lookup msg (purge now a.recent)) a h)
]

-- What a drain and the submissions after it leave: the events that were set before, and on the queue
-- an item for each event made since.
record IsSince (a c : Aggregator) : Type 0 where
  set_events : c.set_events ≡ a.set_events
  more : a.made ≤ c.made
  queued : (n : ℕ) → a.made ≤ n → n < c.made → mem n (events_of c.digest_queue) ≡ true

submit_known-IsSince :
    (now : ℕ) (msg nonced : Bytes) (counted : Bool) (others : Dict Recent) (o : Option Recent)
    (a c : Aggregator)
    → IsSince a c
    → IsSince a (submit_known now msg nonced counted others o c).1
unfolding submit
submit_known-IsSince now msg nonced counted others none a c h = record {
  set_events = h.set_events;
  more = omega (arith, h.more);
  queued = λ n from to.
      rw
        (events-snoc n c.digest_queue
          (record { digest = nonced; done_event = c.made; counted = counted }))
        (ground (arith, h.queued n));
}
submit_known-IsSince now msg nonced counted others (some e) a c h = record {
  set_events = h.set_events;
  more = h.more;
  queued = h.queued;
}

submit-IsSince :
    (now : ℕ) (msg nonced : Bytes) (counted : Bool) (a c : Aggregator)
    → IsSince a c
    → IsSince a (submit now msg nonced counted c).1
unfolding submit
submit-IsSince now msg nonced counted a c h = elim (Bool-cases (c.failure || c.exit_event)) [
  | inl stopped ↦ rw stopped h
  | inr runs ↦ rw runs (
      submit_known-IsSince now msg nonced counted (erase msg (purge now c.recent))
        (lookup msg (purge now c.recent)) a c h)
]

submit_all-IsSince : (cs : List Call) (a c : Aggregator) → IsSince a c → IsSince a (submit_all cs c)
unfolding submit_all
submit_all-IsSince [] a c h = h
submit_all-IsSince (x ∷ cs) a c h =
    submit_all-IsSince cs a (submit x.now x.msg x.nonced x.counted c).1
      (submit-IsSince x.now x.msg x.nonced x.counted a c h)

drain-IsSince : (a : Aggregator) → IsSince a (record a { digest_queue = [] })
drain-IsSince a = record {
  set_events = refl;
  more = omega arith;
  queued = λ n from to. absurd (omega arith);
}

-- Every event made before the round is set, and every one made during it has an item on the queue.
pub record IsRound (a d : Aggregator) : Type 0 where
  pub woken : (n : ℕ) → n < a.made → mem n d.set_events ≡ true
  pub queued : (n : ℕ) → a.made ≤ n → n < d.made → mem n (events_of d.digest_queue) ≡ true

commit-IsRound :
    (commits : Bool) (q : List Item) (a c : Aggregator)
    → ((n : ℕ) → n < a.made → (mem n a.set_events || mem n (events_of q)) ≡ true)
    → IsSince a c
    → IsRound a (commit commits q c)
unfolding commit
commit-IsRound commits [] a c h since = record {
  woken = λ n lt. rw since.set_events (ground (arith, h n lt, mem-nil n));
  queued = since.queued;
}
commit-IsRound true (i ∷ q) a c h since = record {
  woken = λ n lt. rw mem-append (rw since.set_events (ground (arith, h n lt)));
  queued = since.queued;
}
commit-IsRound false (i ∷ q) a c h since = record {
  woken = λ n lt. rw mem-append (rw since.set_events (ground (arith, h n lt)));
  queued = since.queued;
}

drain_runs :
    (a : Aggregator)
    → a.exit_event ≡ false
    → drain a ≡ (a.digest_queue, record a { digest_queue = [] })
unfolding drain
drain_runs a runs = simp runs refl

-- A round of a loop that has not stopped, with any submissions between the moment at which it has
-- taken the queue and the end of its commitment, and whether that succeeds or fails: every event
-- that was made before is set at the end, so none of those callers waits on; and every event that
-- was made meanwhile has its item on the queue still, after a failed round too. Before the round
-- every event is set or has an item on the queue.
pub commit-drain :
    (commits : Bool) (cs : List Call) (a : Aggregator)
    → a.exit_event ≡ false
    → IsCovered a
    → let (q, b) = drain a in IsRound a (commit commits q (submit_all cs b))
commit-drain commits cs a runs h = rw (drain_runs a runs) (
    commit-IsRound commits a.digest_queue a (submit_all cs (record a { digest_queue = [] })) h.event
      (submit_all-IsSince cs a (record a { digest_queue = [] }) (drain-IsSince a)))

-- The digests of the items, one for each and in their order.
abbrev pub AreDigests : List Item → List Bytes → Type 0
AreDigests [] [] = Unit {0}
AreDigests [] (d ∷ ds) = ⊥
AreDigests (i ∷ q) [] = ⊥
AreDigests (i ∷ q) (d ∷ ds) = (d ≡ i.digest) × AreDigests q ds

round_of-AreDigests : (q : List Item) → AreDigests q (round_of q).digests
round_of-AreDigests [] = tt
round_of-AreDigests (i ∷ q) = (refl, round_of-AreDigests q)

-- The items of the paying lane.
unfoldable pub counted_items : List Item → List Item
counted_items [] = []
counted_items (i ∷ q) = (if i.counted then i ∷ [] else []) ++ counted_items q

records_of-length : (q : List Item) → records_of q ≡ length (counted_items q)
unfolding records_of counted_items
records_of-length [] = refl
records_of-length (i ∷ q) = elim (Bool-cases i.counted) [
  | inl here ↦ rw here (omega (arith, records_of-length q))
  | inr free ↦ rw free (omega (arith, records_of-length q))
]

-- What follows a failed round: submissions are refused and change nothing, no caller gets a
-- timestamp, woken or not, and the loop takes nothing from the queue any more.
pub record IsStopped (d : Aggregator) : Type 0 where
  pub refused :
      (now : ℕ) (msg nonced : Bytes) (counted : Bool)
      → submit now msg nonced counted d ≡ (unavailable, d)
  pub no_timestamp : (woken : Bool) (e : Recent) → finish woken d e ≡ none
  pub ended : drain d ≡ ([], d)

commit-IsStopped : (i : Item) (q : List Item) (c : Aggregator) → IsStopped (commit false (i ∷ q) c)
unfolding commit submit finish drain
commit-IsStopped i q c = record {
  refused = λ now msg nonced counted. refl;
  no_timestamp = λ woken e. ground arith;
  ended = refl;
}

-- A round over a queue that is not empty hands the digest of every item of it to one commitment, in
-- order, with the number of the items that are counted. Where the commitment fails, with any
-- submissions meanwhile, every later submission is refused and changes nothing, no caller gets a
-- timestamp, woken or not, and the loop takes nothing from the queue any more. The loop has not
-- stopped before.
pub failed_round_refuses :
    (cs : List Call) (a : Aggregator) (i : Item) (items : List Item)
    → a.exit_event ≡ false
    → a.digest_queue ≡ i ∷ items
    → let (q, b) = drain a in
      AreDigests (i ∷ items) (round_of q).digests
      × ((round_of q).records ≡ length (counted_items (i ∷ items)))
      × IsStopped (commit false q (submit_all cs b))
failed_round_refuses cs a i items runs queued = rw (drain_runs a runs) (
    rw queued (
      round_of-AreDigests (i ∷ items),
      records_of-length (i ∷ items),
      commit-IsStopped i items (submit_all cs (record a { digest_queue = [] })),
    ))
