-- ===== src/Aggregator/Dedupe.antt =====
-- otsserver/calendar.py: the dedupe entries of `Aggregator.submit`, their number and their order.
use mathlib.Core.Bool.{◌||◌}
use opentimestamps_server.Prelude.{
  ℕ, ◌+◌, ◌≤◌, ◌<◌, ◌≡◌, refl, Bool, Option, none, some, [], ◌∷◌, ◌++◌, Bytes, length,
  length-append, arith, Bool-cases, inl, inr,
}
use opentimestamps_server.Prelude.Dict.{Dict, lookup, erase, length-erase}
use opentimestamps_server.Aggregator.{
  Recent, Aggregator, purge, evict, submit, submit_known, refreshed, fresh,
}
use opentimestamps_server.Aggregator.Purge.{
  IsOrdered, purge-IsOrdered, erase-IsOrdered, snoc-IsOrdered, evict-IsOrdered,
}

pub length-purge : (now : ℕ) (d : Dict Recent) → length (purge now d) ≤ length d
unfolding purge
length-purge now [] = omega arith
length-purge now ((k, e) ∷ d) = ground (arith, length-purge now d)

-- An entry that is found is one less once it is taken out.
length-erase_found :
    (msg : Bytes) (d : Dict Recent) (e : Recent)
    → lookup msg d ≡ some e
    → length (erase msg d) < length d
unfolding lookup erase
length-erase_found msg [] e h = cc
length-erase_found msg ((k, f) ∷ d) e h =
    ground (arith, length-erase msg d, length-erase_found msg d e)

length-evict : (limit : ℕ) (d : Dict Recent) → length d ≤ limit + 1 → length (evict limit d) ≤ limit
unfolding evict
length-evict limit [] h = omega arith
length-evict limit (x ∷ d) h = ground arith

-- What holds of `_recent` between two submissions, the last of them at `before`.
pub record IsKept (before : ℕ) (a : Aggregator) : Type 0 where
  pub ordered : IsOrdered (before + a.dedupe_horizon) a.recent
  pub bounded : length a.recent ≤ a.dedupe_max_entries

submit_known-IsKept :
    (before now : ℕ) (msg nonced : Bytes) (counted : Bool) (d : Dict Recent) (o : Option Recent)
    (a : Aggregator)
    → before ≤ now
    → IsOrdered (before + a.dedupe_horizon) d
    → lookup msg d ≡ o
    → length d ≤ a.dedupe_max_entries
    → IsKept now (submit_known now msg nonced counted (erase msg d) o a).1
unfolding submit
submit_known-IsKept before now msg nonced counted d none a le ord found len = record {
  ordered =
      evict-IsOrdered a.dedupe_max_entries (now + a.dedupe_horizon)
        (erase msg d ++ (msg, fresh now a) ∷ [])
        (snoc-IsOrdered (before + a.dedupe_horizon) (now + a.dedupe_horizon) (erase msg d) msg
          (fresh now a) (erase-IsOrdered (before + a.dedupe_horizon) msg d ord) (omega arith) refl);
  bounded =
      length-evict a.dedupe_max_entries (erase msg d ++ (msg, fresh now a) ∷ [])
        (omega (arith, length-append (erase msg d) ((msg, fresh now a) ∷ []), length-erase msg d));
}
submit_known-IsKept before now msg nonced counted d (some e) a le ord found len = record {
  ordered =
      snoc-IsOrdered (before + a.dedupe_horizon) (now + a.dedupe_horizon) (erase msg d) msg
        (refreshed now a e) (erase-IsOrdered (before + a.dedupe_horizon) msg d ord) (omega arith)
        refl;
  bounded = omega (
    arith,
    length-append (erase msg d) ((msg, refreshed now a e) ∷ []),
    length-erase_found msg d e found,
  );
}

widen : (a b : ℕ) (d : Dict Recent) → a ≤ b → IsOrdered a d → IsOrdered b d
widen a b [] le h = tt
widen a b ((k, e) ∷ d) le h = (omega arith, h.1, widen a b d le h.2)

-- Whatever a submission finds, and whether or not it is refused, the entries it leaves stand in
-- the order of their expiries, none expires later than a horizon from now, and there are at most
-- `dedupe_max_entries` of them, if that was so before and the clock has not gone back.
pub submit-IsKept :
    (before now : ℕ) (msg nonced : Bytes) (counted : Bool) (a : Aggregator)
    → before ≤ now
    → IsKept before a
    → IsKept now (submit now msg nonced counted a).1
unfolding submit
submit-IsKept before now msg nonced counted a le kept =
    elim (Bool-cases (a.failure || a.exit_event)) [
      | inl stopped ↦ rw stopped (record {
        ordered =
            widen (before + a.dedupe_horizon) (now + a.dedupe_horizon) a.recent (omega arith)
              kept.ordered;
        bounded = kept.bounded;
      })
      | inr runs ↦ rw runs (
          submit_known-IsKept before now msg nonced counted (purge now a.recent)
            (lookup msg (purge now a.recent)) a le
            (purge-IsOrdered now (before + a.dedupe_horizon) a.recent kept.ordered) refl
            (omega (arith, length-purge now a.recent, kept.bounded)))
    ]
