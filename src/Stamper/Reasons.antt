-- ===== src/Stamper/Reasons.antt =====
-- otsserver/stamper.py: the answers of `Stamper.is_pending`.
use Prim.Native.Nat.{zero, suc}
use mathlib.Core.Option.{some-injective}
use mathlib.Core.Bool.{◌||◌}
use opentimestamps_server.Prelude.{
  ℕ, ◌+◌, ◌-◌, ◌≤◌, ◌<◌, ◌≡◌, ◌≢◌, refl, ap, ◌∙◌, sym, Bool, true, false, Option, none, some, List,
  [], ◌∷◌, Bytes, bytes_eq, bytes_eq_iff, elem, arith, if◌then◌else◌, Bool-cases, Option-cases, inl,
  inr, ◌⊎◌, ==_iff, ==-false, ℕ_discrete, is_some, dec_lt,
}
use opentimestamps_server.Prelude.Dict.{lookup}
use opentimestamps_server.Prelude.NatDict
use opentimestamps_server.Prelude.NatDict.{NatDict}
use opentimestamps_server.Stamper.{Stamper, TimestampTx}
use opentimestamps_server.Stamper.Coverage.{IsOutstanding, IsComplete}
use opentimestamps_server.Stamper.Pending.{Reason, pending_confirmation, scan, waiting, is_pending}

-- The scan meets every entry that it reaches without a gap in the journal before it.
scan-finds :
    (n idx : ℕ) (fuel : ℕ) (journal : ℕ → Option Bytes) (c : Bytes)
    → ((k : ℕ) → k ≤ idx + n → is_some (journal k) ≡ true)
    → journal (idx + n) ≡ some c
    → n < fuel
    → scan fuel journal idx c ≡ true
unfolding scan
scan-finds n idx zero journal c dense at lt = absurd (omega arith)
scan-finds n idx (suc fuel) journal c dense at lt = elim (Option-cases (journal idx)) [
  | inl ended ↦ absurd (none_is_some (sym (ap is_some ended) ∙ dense idx (omega arith)))
  | inr (recent, read) ↦
      rw (read, scan)
        (met
          (λ later.
            scan-finds (n - 1) (idx + 1) fuel journal c (λ k le. dense k (omega arith))
              (ap journal (place later) ∙ at) (omega arith))
          recent read)
]
  where
    none_is_some : ◌≡◌ {A = Bool} (is_some {A = Bytes} none) true → ⊥
    none_is_some e = cc

    at_once : (recent : Bytes) → journal idx ≡ some recent → n ≡ 0 → bytes_eq recent c ≡ true
    at_once recent read here =
        let place : idx + n ≡ idx = omega arith in
        (bytes_eq_iff recent c).1 (some-injective recent c (sym read ∙ sym (ap journal place) ∙ at))

    place : n ≢ 0 → idx + 1 + (n - 1) ≡ idx + n
    place later = omega arith

    met :
        (n ≢ 0 → scan fuel journal (idx + 1) c ≡ true)
        → (recent : Bytes) → journal idx ≡ some recent
        → (bytes_eq recent c || scan fuel journal (idx + 1) c) ≡ true
    met further recent read = elim (ℕ_discrete n 0) [
      | yes here ↦ rw (at_once recent read here) refl
      | no later ↦ rw (further later) (ground arith)
    ]

waiting-finds :
    (m h : ℕ) (c : Bytes) (t : TimestampTx) (d : NatDict TimestampTx)
    → NatDict.lookup h d ≡ some t
    → elem c t.commitments ≡ true
    → is_some (waiting m c d) ≡ true
unfolding waiting NatDict.lookup
waiting-finds m h c t [] found there = cc
waiting-finds m h c t ((k, u) ∷ d) found there = elim (Bool-cases (elem c u.commitments)) [
  | inl here ↦ rw here refl
  | inr absent ↦ elim (ℕ_discrete k h) [
    | yes same ↦ absurd (both absent (some-injective u t (rw ((==_iff k h).1 same) at found)))
    | no other ↦ rw absent (waiting-finds m h c t d (rw (==-false k h other) at found) there)
  ]
]
  where
    contradiction : ◌≡◌ {A = Bool} false true → ⊥
    contradiction e = cc

    both : elem c u.commitments ≡ false → u ≡ t → ⊥
    both out same =
        contradiction (sym out ∙ ap (λ (v : TimestampTx). elem c v.commitments) same ∙ there)

answered :
    (fuel min_confirmations i : ℕ) (journal : ℕ → Option Bytes) (held : List Bytes) (s : Stamper)
    (c : Bytes)
    → IsComplete journal held s.journal_cursor s
    → ((k : ℕ) → k ≤ i → is_some (journal k) ≡ true)
    → journal i ≡ some c
    → i < s.journal_cursor + fuel
    → (elem c held ≡ true)
      ⊎ (is_some (is_pending fuel journal min_confirmations (some s.journal_cursor) s c) ≡ true)
unfolding is_pending
answered fuel m i journal held s c h dense at enough =
    elim (Bool-cases (elem c s.pending_commitments)) [
      | inl pends ↦ inr (rw pends refl)
      | inr not_pending ↦ rw not_pending (elim (dec_lt i s.journal_cursor) [
        | yes behind ↦ told not_pending (h.indexed i c behind at)
        | no ahead ↦ inr (rw (met ahead) refl)
      ])
    ]
  where
    met : ¬ (i < s.journal_cursor) → scan fuel journal s.journal_cursor c ≡ true
    met ahead =
        let place : s.journal_cursor + (i - s.journal_cursor) ≡ i = omega arith in
        scan-finds (i - s.journal_cursor) s.journal_cursor fuel journal c
          (λ k le. dense k (omega arith)) (ap journal place ∙ at) (omega arith)

    contradiction : ◌≡◌ {A = Bool} false true → ⊥
    contradiction e = cc

    answer : Option Reason
    answer =
        if scan fuel journal s.journal_cursor c
        then some pending_confirmation
        else waiting m c s.txs_waiting_for_confirmation

    mined : elem c s.pending_commitments ≡ false → IsOutstanding c s → is_some answer ≡ true
    mined out (inl there) = absurd (contradiction (sym out ∙ there))
    mined out (inr (k, t, found, there)) =
        elim (Bool-cases (scan fuel journal s.journal_cursor c)) [
          | inl seen ↦ rw seen refl
          | inr unseen ↦
              rw unseen (waiting-finds m k c t s.txs_waiting_for_confirmation found there)
        ]

    told :
        elem c s.pending_commitments ≡ false
        → (elem c held ≡ true) ⊎ ((j : ℕ) × (lookup c s.commitment_idxs ≡ some j) × (j ≤ i))
        → (elem c held ≡ true) ⊎ (is_some answer ≡ true)
    told out (inl there) = inl there
    told out (inr (j, found, le)) = inr (mined out (h.outstanding c j found))

-- Where no entry behind the cursor is lost, and the cursor is set, every entry of the journal is in
-- the database or has a reason to be pending, given the entries before it and fuel for the entries
-- between the cursor and it. Where the cursor is `None` still, with nothing pending and nothing in
-- a transaction, there is no reason for any entry of the journal.
pub is_pending-IsComplete :
    (fuel min_confirmations i : ℕ) (journal : ℕ → Option Bytes) (held : List Bytes) (s : Stamper)
    (c : Bytes)
    → IsComplete journal held s.journal_cursor s
    → ((k : ℕ) → k ≤ i → is_some (journal k) ≡ true)
    → journal i ≡ some c
    → i < s.journal_cursor + fuel
    → ((elem c held ≡ true)
        ⊎ (is_some (is_pending fuel journal min_confirmations (some s.journal_cursor) s c) ≡ true))
      × (is_pending fuel journal min_confirmations none
            (record s { pending_commitments = []; txs_waiting_for_confirmation = [] })
            c
          ≡ none)
unfolding elem is_pending
is_pending-IsComplete fuel m i journal held s c h dense at enough =
    (answered fuel m i journal held s c h dense at enough, unstarted)
  where
    unstarted :
        is_pending fuel journal m none
          (record s { pending_commitments = []; txs_waiting_for_confirmation = [] })
          c
        ≡ none
    unstarted = refl
