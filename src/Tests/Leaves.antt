-- ===== src/Tests/Leaves.antt =====
-- The aggregator's submissions and rounds, and the keys of a small tree.
use opentimestamps_server.Prelude.{
  ℕ, ◌≡◌, refl, Bool, bytes_eq, length, true, false, none, List, [], ◌∷◌, Bytes, codes, arith,
}
use opentimestamps_server.Prelude.Dict.{Dict, lookup, erase}
use opentimestamps_server.Aggregator.{
  Aggregator, Recent, Item, attached, purge, submit, drain, commit, round_of, evict,
}
use opentimestamps_server.Aggregator.Purge.{IsOrdered, unexpired, purge-unexpired}
use opentimestamps_server.Aggregator.Dedupe.{IsKept, submit-IsKept}
use opentimestamps_server.Aggregator.Resubmit.{Call, IsWithin, submit_all, resubmit_attaches}
use opentimestamps_server.Aggregator.Rounds.{
  mem, IsCovered, IsRound, IsStopped, AreDigests, counted_items, commit-drain, failed_round_refuses,
}
use opentimestamps_server.Keys.{derive_key_for_idx}
use opentimestamps_server.Keys.Subtree.{of_bits, walk, derive_key_for_idx-walk}

abbrev pub idle : Aggregator
idle = record {
  dedupe_horizon = 10;
  dedupe_max_entries = 4;
  digest_queue = [];
  recent = [];
  set_events = [];
  made = 0;
  failure = false;
  exit_event = false;
}

abbrev pub calls : List Call
calls = record { now = 6; msg = codes "b"; nonced = codes "b1"; counted = true } ∷ []

calls-IsWithin : IsWithin 5 15 calls
calls-IsWithin = (omega arith, omega arith, tt)

nothing_recent : lookup (codes "a") (purge 5 []) ≡ none
unfolding lookup purge
nothing_recent = refl

resubmit_attaches_example :
    let b = submit_all calls (submit 5 (codes "a") (codes "a1") true idle).1 in
    let (r, b') = submit 9 (codes "a") (codes "a2") true b in
    (e : Recent) × (r ≡ attached e)
    × (e.timestamp ≡ 0)
    × (b'.digest_queue ≡ b.digest_queue)
    × (b'.made ≡ b.made)
resubmit_attaches_example =
    resubmit_attaches 5 9 (codes "a") (codes "a1") (codes "a2") true true calls idle refl
      nothing_recent (omega arith) calls-IsWithin (omega arith)

abbrev pub entry_of : ℕ → Recent
entry_of t = record { expires_at = t; timestamp = 0; done_event = 0 }

abbrev pub one_recent : Aggregator
one_recent = record idle { recent = (codes "a", entry_of 12) ∷ []; made = 1 }

one_recent-IsKept : IsKept 5 one_recent
one_recent-IsKept = record { ordered = (omega arith, tt, tt); bounded = omega arith }

submit-IsKept_example : IsKept 6 (submit 6 (codes "b") (codes "b1") true one_recent).1
submit-IsKept_example =
    submit-IsKept 5 6 (codes "b") (codes "b1") true one_recent (omega arith) one_recent-IsKept

abbrev pub two_recent : Dict Recent
two_recent = (codes "a", entry_of 5) ∷ (codes "b", entry_of 12) ∷ []

two_recent-IsOrdered : IsOrdered 20 two_recent
two_recent-IsOrdered = (omega arith, (omega arith, tt), (omega arith, tt, tt))

purge-unexpired_example : purge 7 two_recent ≡ unexpired 7 two_recent
purge-unexpired_example = purge-unexpired 7 20 two_recent two_recent-IsOrdered

abbrev pub first_item : Item
first_item = record { digest = codes "a1"; done_event = 0; counted = true }

abbrev pub busy : Aggregator
busy = record idle {
  digest_queue = first_item ∷ [];
  recent = (codes "a", entry_of 12) ∷ [];
  made = 1;
}

busy-IsCovered : IsCovered busy
unfolding mem
busy-IsCovered = record { event = λ n lt. ground arith }

commit-drain_example : let (q, b) = drain busy in IsRound busy (commit false q (submit_all calls b))
commit-drain_example = commit-drain false calls busy refl busy-IsCovered

failed_round_refuses_example :
    let (q, b) = drain busy in
    AreDigests (first_item ∷ []) (round_of q).digests
    × ((round_of q).records ≡ length (counted_items (first_item ∷ [])))
    × IsStopped (commit false q (submit_all calls b))
failed_round_refuses_example = failed_round_refuses calls busy first_item [] refl refl

-- What a caller queues while the round commits stays on the queue.
queued_meanwhile :
    let (q, b) = drain busy in length (commit true q (submit_all calls b)).digest_queue ≡ 1
unfolding drain commit submit_all submit purge erase lookup evict bytes_eq
queued_meanwhile = refl

-- A hash for the tests.
abbrev pub first_bytes : Bytes → Bytes
first_bytes b = 1 ∷ b

derive_key_for_idx-walk_example :
    (path : List Bool) × (length path ≡ 3)
    × (of_bits path ≡ 5)
    × (derive_key_for_idx first_bytes (codes "k") 5 3 ≡ walk first_bytes (codes "k") path)
derive_key_for_idx-walk_example = derive_key_for_idx-walk first_bytes (codes "k") 5 3 (omega arith)
