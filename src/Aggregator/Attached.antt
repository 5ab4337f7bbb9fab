-- ===== src/Aggregator/Attached.antt =====
-- otsserver/calendar.py: the entries of `Aggregator.submit` for one message, call by call.
use mathlib.Core.Bool.{◌||◌}
use opentimestamps_server.Prelude.{
  ℕ, ◌+◌, ◌≤◌, ◌<◌, ◌≡◌, refl, ap, ◌∙◌, sym, subst, Bool, false, Option, none, some, [], ◌∷◌, ◌++◌,
  Bytes, bytes_eq, bytes_eq_iff, bytes_eq_refl, length, length-append, arith, if◌then◌else◌,
  Bool-cases, inl, inr,
}
use opentimestamps_server.Prelude.Dict.{
  Dict, lookup, erase, length-erase, lookup-erase, lookup-append,
}
use opentimestamps_server.Aggregator.{
  Recent, Aggregator, attached, purge, evict, submit, submit_known, refreshed, fresh,
}
use opentimestamps_server.Aggregator.Dedupe.{length-purge}

-- An entry that has not expired is found after the purge.
lookup-purge :
    (now : ℕ) (msg : Bytes) (d : Dict Recent) (e : Recent)
    → lookup msg d ≡ some e
    → now < e.expires_at
    → lookup msg (purge now d) ≡ some e
unfolding lookup purge
lookup-purge now msg [] e h lt = cc
lookup-purge now msg ((k, f) ∷ d) e h lt = ground (arith, lookup-purge now msg d e)

pub evict_fits : (limit : ℕ) (d : Dict Recent) → length d ≤ limit → evict limit d ≡ d
unfolding evict
evict_fits limit [] h = refl
evict_fits limit (x ∷ d) h = ground arith

-- `msg` is attached to `timestamp` until `until`.
pub record IsAttached (msg : Bytes) (timestamp until : ℕ) (a : Aggregator) : Type 0 where
  pub entry : Recent
  pub found : lookup msg a.recent ≡ some entry
  pub same : entry.timestamp ≡ timestamp
  pub lasts : until ≤ entry.expires_at

-- A running loop: a submission is not refused at once.
abbrev pub IsRunning : Aggregator → Type 0
IsRunning a = (a.failure || a.exit_event) ≡ false

pub lookup-snoc_self :
    (msg : Bytes) (d : Dict Recent) (e : Recent)
    → lookup msg d ≡ none
    → lookup msg (d ++ (msg, e) ∷ []) ≡ some e
unfolding lookup
lookup-snoc_self msg d e h = rw lookup-append (rw h (rw bytes_eq_refl refl))

lookup-snoc_old :
    (msg other : Bytes) (d : Dict Recent) (e f : Recent)
    → lookup msg d ≡ some e
    → lookup msg (d ++ (other, f) ∷ []) ≡ some e
lookup-snoc_old msg other d e f h = rw lookup-append (rw h refl)

pub lookup-erase_self : (msg : Bytes) (d : Dict Recent) → lookup msg (erase msg d) ≡ none
lookup-erase_self msg d =
    lookup-erase msg msg d ∙ ap (λ b. if b then none else lookup msg d) (bytes_eq_refl msg)

lookup-erase_ne :
    (msg other : Bytes) (d : Dict Recent)
    → bytes_eq other msg ≡ false
    → lookup msg (erase other d) ≡ lookup msg d
lookup-erase_ne msg other d h =
    lookup-erase other msg d ∙ ap (λ b. if b then none else lookup msg d) h

-- A submission of a message that is attached: the answer, and no new item or object.
pub resubmit-step :
    (now : ℕ) (msg nonced : Bytes) (counted : Bool) (a : Aggregator) (e : Recent)
    → IsRunning a
    → lookup msg a.recent ≡ some e
    → now < e.expires_at
    → submit now msg nonced counted a ≡ (
      attached (refreshed now a e),
      record a { recent = erase msg (purge now a.recent) ++ (msg, refreshed now a e) ∷ [] },
    )
unfolding submit
resubmit-step now msg nonced counted a e runs found lt =
    rw runs (rw (lookup-purge now msg a.recent e found lt) refl)

-- The same message again: the entry stays, with a later expiry.
refresh-IsAttached :
    (now : ℕ) (msg nonced : Bytes) (counted : Bool) (timestamp until : ℕ) (a : Aggregator)
    → IsRunning a
    → now < until
    → until ≤ now + a.dedupe_horizon
    → IsAttached msg timestamp until a
    → IsAttached msg timestamp until (submit now msg nonced counted a).1
refresh-IsAttached now msg nonced counted timestamp until a runs lt horizon at =
    rw (resubmit-step now msg nonced counted a at.entry runs at.found (omega (arith, at.lasts)))
      (record {
        entry = refreshed now a at.entry;
        found =
            lookup-snoc_self msg (erase msg (purge now a.recent)) (refreshed now a at.entry)
              (lookup-erase_self msg (purge now a.recent));
        same = at.same;
        lasts = horizon;
      })

other_known-IsAttached :
    (now : ℕ) (msg other nonced : Bytes) (counted : Bool) (timestamp until : ℕ) (d : Dict Recent)
    (o : Option Recent) (a : Aggregator) (e : Recent)
    → bytes_eq other msg ≡ false
    → lookup msg d ≡ some e
    → e.timestamp ≡ timestamp
    → until ≤ e.expires_at
    → length d < a.dedupe_max_entries
    → IsAttached msg timestamp until (submit_known now other nonced counted (erase other d) o a).1
unfolding submit
other_known-IsAttached now msg other nonced counted timestamp until d none a e ne found same lasts
      room =
    record {
      entry = e;
      found =
          ap (lookup msg) (
            evict_fits a.dedupe_max_entries (erase other d ++ (other, fresh now a) ∷ []) (
              omega (
                arith,
                length-append (erase other d) ((other, fresh now a) ∷ []),
                length-erase other d,
              )))
          ∙ lookup-snoc_old msg other (erase other d) e (fresh now a)
              (lookup-erase_ne msg other d ne ∙ found);
      same = same;
      lasts = lasts;
    }
other_known-IsAttached now msg other nonced counted timestamp until d (some f) a e ne found same
      lasts room =
    record {
      entry = e;
      found =
          lookup-snoc_old msg other (erase other d) e (refreshed now a f)
            (lookup-erase_ne msg other d ne ∙ found);
      same = same;
      lasts = lasts;
    }

-- Any submission inside the horizon, of this message or of another, leaves it attached while
-- there is room for one more entry.
pub submit-IsAttached :
    (now : ℕ) (msg other nonced : Bytes) (counted : Bool) (timestamp until : ℕ) (a : Aggregator)
    → IsRunning a
    → now < until
    → until ≤ now + a.dedupe_horizon
    → length a.recent < a.dedupe_max_entries
    → IsAttached msg timestamp until a
    → IsAttached msg timestamp until (submit now other nonced counted a).1
submit-IsAttached now msg other nonced counted timestamp until a runs lt horizon room at =
    elim (Bool-cases (bytes_eq other msg)) [
      | inl same ↦
          subst (λ m. IsAttached msg timestamp until (submit now m nonced counted a).1)
            (sym ((bytes_eq_iff other msg).0 same))
            (refresh-IsAttached now msg nonced counted timestamp until a runs lt horizon at)
      | inr ne ↦
          unfold submit in
          rw runs (
            other_known-IsAttached now msg other nonced counted timestamp until (purge now a.recent)
              (lookup other (purge now a.recent)) a at.entry ne
              (lookup-purge now msg a.recent at.entry at.found (omega (arith, at.lasts))) at.same
              at.lasts (omega (arith, length-purge now a.recent)))
    ]
