-- ===== src/Aggregator/Resubmit.antt =====
-- otsserver/calendar.py: sequences of calls of `Aggregator.submit` inside a horizon.
use mathlib.Core.Bool.{◌||◌}
use opentimestamps_server.Prelude.{
  ℕ, ◌+◌, ◌≤◌, ◌<◌, ◌≡◌, refl, ap, ◌∙◌, Bool, Option, none, some, List, [], ◌∷◌, ◌++◌, Bytes,
  length, length-append, arith, Bool-cases, inl, inr,
}
use opentimestamps_server.Prelude.Dict.{Dict, lookup, erase, length-erase}
use opentimestamps_server.Aggregator.{
  Recent, Aggregator, attached, purge, evict, submit, submit_known, refreshed, fresh,
}
use opentimestamps_server.Aggregator.Dedupe.{length-purge}
use opentimestamps_server.Aggregator.Attached.{
  evict_fits, IsAttached, IsRunning, lookup-snoc_self, lookup-erase_self, resubmit-step,
  submit-IsAttached,
}

-- What a submission leaves as it is, and how much it adds.
record Frame (a b : Aggregator) : Type 0 where
  horizon : b.dedupe_horizon ≡ a.dedupe_horizon
  limit : b.dedupe_max_entries ≡ a.dedupe_max_entries
  failure : b.failure ≡ a.failure
  exit_event : b.exit_event ≡ a.exit_event
  grows : length b.recent ≤ length a.recent + 1

length-evict_le : (limit : ℕ) (d : Dict Recent) → length (evict limit d) ≤ length d
unfolding evict
length-evict_le limit [] = omega arith
length-evict_le limit (x ∷ d) = ground arith

submit_known-Frame :
    (now : ℕ) (msg nonced : Bytes) (counted : Bool) (others : Dict Recent) (o : Option Recent)
    (a : Aggregator)
    → length others ≤ length a.recent
    → Frame a (submit_known now msg nonced counted others o a).1
unfolding submit
submit_known-Frame now msg nonced counted others none a h = record {
  horizon = refl;
  limit = refl;
  failure = refl;
  exit_event = refl;
  grows = omega (
    arith,
    length-evict_le a.dedupe_max_entries (others ++ (msg, fresh now a) ∷ []),
    length-append others ((msg, fresh now a) ∷ []),
  );
}
submit_known-Frame now msg nonced counted others (some e) a h = record {
  horizon = refl;
  limit = refl;
  failure = refl;
  exit_event = refl;
  grows = omega (arith, length-append others ((msg, refreshed now a e) ∷ []));
}

submit-Frame :
    (now : ℕ) (msg nonced : Bytes) (counted : Bool) (a : Aggregator)
    → Frame a (submit now msg nonced counted a).1
unfolding submit
submit-Frame now msg nonced counted a = elim (Bool-cases (a.failure || a.exit_event)) [
  | inl stopped ↦ rw stopped (record {
    horizon = refl;
    limit = refl;
    failure = refl;
    exit_event = refl;
    grows = omega arith;
  })
  | inr runs ↦ rw runs (
      submit_known-Frame now msg nonced counted (erase msg (purge now a.recent))
        (lookup msg (purge now a.recent)) a
        (omega (arith, length-erase msg (purge now a.recent), length-purge now a.recent)))
]

-- Calls of `submit`, in the order in which they take the lock.
pub record Call : Type 0 where
  pub now : ℕ
  pub msg : Bytes
  pub nonced : Bytes
  pub counted : Bool

unfoldable pub submit_all : List Call → Aggregator → Aggregator
submit_all [] a = a
submit_all (c ∷ cs) a = submit_all cs (submit c.now c.msg c.nonced c.counted a).1

-- Every call is made from `since` on and before `until`.
abbrev pub IsWithin : ℕ → ℕ → List Call → Type 0
IsWithin since until [] = Unit {0}
IsWithin since until (c ∷ cs) = (since ≤ c.now) × (c.now < until) × IsWithin since until cs

submit_all-IsAttached :
    (since : ℕ) (msg : Bytes) (timestamp until : ℕ) (cs : List Call) (a : Aggregator)
    → IsRunning a
    → IsWithin since until cs
    → until ≤ since + a.dedupe_horizon
    → length a.recent + length cs ≤ a.dedupe_max_entries
    → IsAttached msg timestamp until a
    → IsAttached msg timestamp until (submit_all cs a) × IsRunning (submit_all cs a)
unfolding submit_all
submit_all-IsAttached since msg timestamp until [] a runs within horizon room at = (at, runs)
submit_all-IsAttached since msg timestamp until (c ∷ cs) a runs within horizon room at =
    let b = (submit c.now c.msg c.nonced c.counted a).1 in
    let frame = submit-Frame c.now c.msg c.nonced c.counted a in
    submit_all-IsAttached since msg timestamp until cs b
      (rw frame.failure (rw frame.exit_event runs)) within.2 (omega (arith, frame.horizon))
      (omega (arith, frame.grows, frame.limit))
      (submit-IsAttached c.now msg c.msg c.nonced c.counted timestamp until a runs within.1
        (omega arith) (omega arith) at)

first-IsAttached :
    (now : ℕ) (msg nonced : Bytes) (counted : Bool) (a : Aggregator)
    → IsRunning a
    → lookup msg (purge now a.recent) ≡ none
    → length a.recent < a.dedupe_max_entries
    → IsAttached msg a.made (now + a.dedupe_horizon) (submit now msg nonced counted a).1
unfolding submit
first-IsAttached now msg nonced counted a runs new room =
    let others = erase msg (purge now a.recent) in
    rw runs (
      rw new (record {
        entry = fresh now a;
        found =
            ap (lookup msg) (
              evict_fits a.dedupe_max_entries (others ++ (msg, fresh now a) ∷ []) (
                omega (
                  arith,
                  length-append others ((msg, fresh now a) ∷ []),
                  length-erase msg (purge now a.recent),
                  length-purge now a.recent,
                )))
            ∙ lookup-snoc_self msg others (fresh now a)
                (lookup-erase_self msg (purge now a.recent));
        same = refl;
        lasts = omega arith;
      }))

attached_again :
    (now : ℕ) (msg nonced : Bytes) (counted : Bool) (timestamp until : ℕ) (b : Aggregator)
    → IsRunning b
    → now < until
    → IsAttached msg timestamp until b
    → let (r, b') = submit now msg nonced counted b in
      (e : Recent) × (r ≡ attached e)
      × (e.timestamp ≡ timestamp)
      × (b'.digest_queue ≡ b.digest_queue)
      × (b'.made ≡ b.made)
attached_again now msg nonced counted timestamp until b runs lt at =
    rw (resubmit-step now msg nonced counted b at.entry runs at.found (omega (arith, at.lasts)))
      (refreshed now b at.entry, refl, at.same, refl, refl)

-- A message that was new at `first` is attached to the timestamp that its submission made, and
-- after any calls inside its horizon, as long as the entries have room for them all, a
-- resubmission before the horizon is over gets that same timestamp, puts nothing on the queue and
-- makes no object: it is one leaf, counted as its first submission was.
pub resubmit_attaches :
    (first again : ℕ) (msg nonced nonced' : Bytes) (counted counted' : Bool) (cs : List Call)
    (a : Aggregator)
    → IsRunning a
    → lookup msg (purge first a.recent) ≡ none
    → length a.recent + 1 + length cs ≤ a.dedupe_max_entries
    → IsWithin first (first + a.dedupe_horizon) cs
    → again < first + a.dedupe_horizon
    → let b = submit_all cs (submit first msg nonced counted a).1 in
      let (r, b') = submit again msg nonced' counted' b in
      (e : Recent) × (r ≡ attached e)
      × (e.timestamp ≡ a.made)
      × (b'.digest_queue ≡ b.digest_queue)
      × (b'.made ≡ b.made)
resubmit_attaches first again msg nonced nonced' counted counted' cs a runs new room within lt =
    let b = (submit first msg nonced counted a).1 in
    let frame = submit-Frame first msg nonced counted a in
    let (at, still) =
      submit_all-IsAttached first msg a.made (first + a.dedupe_horizon) cs b
        (rw frame.failure (rw frame.exit_event runs)) within (omega (arith, frame.horizon))
        (omega (arith, frame.grows, frame.limit))
        (first-IsAttached first msg nonced counted a runs new (omega arith)) in
    attached_again again msg nonced' counted' a.made (first + a.dedupe_horizon) (submit_all cs b)
      still lt at
