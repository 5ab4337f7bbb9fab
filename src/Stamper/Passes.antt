-- ===== src/Stamper/Passes.antt =====
-- otsserver/stamper.py: a whole pass of the sending, from its first test to its last assignment.
use mathlib.Core.Bool.{not}
use opentimestamps_server.Prelude.{
  ℕ, ◌≤◌, ◌≡◌, ◌≢◌, ◌∙◌, refl, sym, ap, subst, Bool, true, false, Option, none, some, List, [], ◌∷◌,
  ◌++◌, Bytes, length, ltb, ◌==◌, ==_iff, if◌then◌else◌, Bool-cases, inl, inr, ◌⊎◌, arith,
}
use opentimestamps_server.Stamper.{Tx, UnconfirmedTimestampTx, Stamper}
use opentimestamps_server.Stamper.Blocks.{done}
use opentimestamps_server.Stamper.Records.{count_tree_records, count_known, read_again, keep_count}
use opentimestamps_server.Stamper.Wallet.{Unspent, find_unspent, Rate, tx_template}
use opentimestamps_server.Stamper.Sending.{
  Sign, complete, incomplete, sign_raises, Config, Node, Library, Round, sends, stops, fails, again,
  send_loop, finish_send, close_tree, send_from, initial_rate, with_estimate, with_template,
  with_change, last_of, first_of_cycle, last_tx, send_cycle, is_none, idle_pass, after_clock,
  send_pass,
}
use opentimestamps_server.Prelude.Dict.{lookup}
use opentimestamps_server.Stamper.Sends.{
  IsKept, same, IsKept-trans, IsUnsent, IsRound, send_loop-IsRound, IsSent,
}

-- The sum of the records changes only the counts that are kept.
IsCountedFrom : Stamper → Stamper → Type 0
IsCountedFrom s t = IsKept s t × (t.unconfirmed_txs ≡ s.unconfirmed_txs)

count_tree_records-keeps :
    (counts : ℕ → Option ℕ) (cs : List Bytes) (s : Stamper)
    → IsCountedFrom s (count_tree_records counts cs s).1
unfolding IsCountedFrom count_tree_records
count_tree_records-keeps counts [] s = (same s, refl)
count_tree_records-keeps counts (c ∷ cs) s =
    let one = known (lookup c s.commitment_records) in
    let rest =
      count_tree_records-keeps counts cs
        (count_known counts c (lookup c s.commitment_records) s).1 in
    (
      IsKept-trans s (count_known counts c (lookup c s.commitment_records) s).1 _ one.0 rest.0,
      rest.1 ∙ one.1,
    )
  where
    kept : (o : Option ℕ) → IsCountedFrom s (keep_count c o s).1
    kept none = (same s, refl)
    kept (some n) = (record { pending = refl; mined = refl; indexes = refl; cursor = refl }, refl)

    re_read : (o : Option ℕ) → IsCountedFrom s (read_again counts c o s).1
    re_read none = (same s, refl)
    re_read (some idx) = kept (counts idx)

    known : (o : Option ℕ) → IsCountedFrom s (count_known counts c o s).1
    known none = re_read (lookup c s.commitment_idxs)
    known (some n) = (same s, refl)

close_tree-keeps : (c : Config) (l : Library) (s : Stamper) → IsCountedFrom s (close_tree c l s).1
unfolding IsCountedFrom
close_tree-keeps c l s = elim (Bool-cases c.receipts_on) [
  | inl on ↦
      rw on (unfold IsCountedFrom in count_tree_records-keeps l.counts s.pending_commitments s)
  | inr off ↦ rw off (same s, refl)
]

-- How a pass leaves the versions in flight: none is added, or one over all that is pending is.
abbrev pub IsPass : Config → Node → Library → Stamper → Stamper → Type 0
IsPass c n l s t = IsKept s t × (IsUnsent s t ⊎ IsSent c n l s t)

module _ (fuel : ℕ) (c : Config) (n : Node) (l : Library) (s : Stamper)
    (some_pending : length s.pending_commitments ≢ 0) where
  finish_send-IsPass :
      (t : Stamper) (records : ℕ) (r : Round)
      → IsCountedFrom s t
      → IsRound c n l (l.tip_of s.pending_commitments) t r
      → IsPass c n l s (finish_send l (l.tip_of s.pending_commitments) records t r).1
  unfolding IsCountedFrom
  finish_send-IsPass t records (sends tx fee) (kept, flight) h =
      let version : UnconfirmedTimestampTx = record {
        tx = tx;
        txid = l.txid tx;
        tip = l.tip_of s.pending_commitments;
        n = length t.pending_commitments;
        fee = fee;
        records = records;
      } in
      (
        record {
          pending = kept.pending;
          mined = kept.mined;
          indexes = kept.indexes;
          cursor = kept.cursor;
        },
        inr (record {
          version = version;
          appended = ap (λ us. us ++ version ∷ []) flight;
          whole = ap length kept.pending;
          over = refl;
          accepted = h;
          some_pending = some_pending;
        }),
      )
  finish_send-IsPass t records (stops u) (kept, flight) h =
      (IsKept-trans s t u kept h.0, inl (unsent h.1))
    where
      unsent : IsUnsent t u → IsUnsent s u
      unsent (inl e) = inl (e ∙ flight)
      unsent (inr e) = inr e
  finish_send-IsPass t records (fails u) (kept, flight) h =
      (IsKept-trans s t u kept h.0, inl (unsent h.1))
    where
      unsent : IsUnsent t u → IsUnsent s u
      unsent (inl e) = inl (e ∙ flight)
      unsent (inr e) = inr e
  finish_send-IsPass t records again (kept, flight) h = (kept, inl (inl flight))

  send_from-IsPass :
      (prev : Tx) (rate next : Rate) → IsPass c n l s (send_from fuel c n l prev rate next s).1
  unfolding send_from
  send_from-IsPass prev rate next =
      finish_send-IsPass (close_tree c l s).1 (close_tree c l s).0
        (send_loop fuel c n l 0 prev (l.tip_of s.pending_commitments) rate next
          (close_tree c l s).1)
        (close_tree-keeps c l s)
        (send_loop-IsRound fuel c n l 0 prev (l.tip_of s.pending_commitments) rate next
          (close_tree c l s).1)

  abbrev idle : IsPass c n l s s
  idle = (same s, inl (inl refl))

  with_estimate-IsPass :
      (prev : Tx) (o : Option (Option Rate)) → IsPass c n l s (with_estimate fuel c n l prev o s).1
  with_estimate-IsPass prev none = idle
  with_estimate-IsPass prev (some estimate) =
      send_from-IsPass prev (initial_rate c estimate) c.relay_feerate

  with_template-IsPass : (r : Sign) → IsPass c n l s (with_template fuel c n l r s).1
  with_template-IsPass (complete tx) = with_estimate-IsPass tx n.estimate
  with_template-IsPass incomplete = idle
  with_template-IsPass sign_raises = idle

  with_change-IsPass :
      (u : Unspent) (o : Option Bytes) → IsPass c n l s (with_change fuel c n l u o s).1
  with_change-IsPass u none = idle
  with_change-IsPass u (some script) =
      with_template-IsPass (n.sign_template (tx_template u.outpoint u.amount script))

  first_of_cycle-IsPass :
      (o : Option (List Unspent)) → IsPass c n l s (first_of_cycle fuel c n l o s).1
  first_of_cycle-IsPass none = idle
  first_of_cycle-IsPass (some []) = idle
  first_of_cycle-IsPass (some (u ∷ us)) = with_change-IsPass (last_of u us) n.change_script

  send_cycle-IsPass : (o : Option Tx) → IsPass c n l s (send_cycle fuel c n l o s).1
  send_cycle-IsPass (some prev) = send_from-IsPass prev c.relay_feerate c.relay_feerate
  send_cycle-IsPass none = first_of_cycle-IsPass (find_unspent n.wallet)

-- The clock of departures has run out, and the versions in flight, if any, had a new block to be
-- mined in.
abbrev pub IsDue : ℕ → Bool → Stamper → Type 0
IsDue now fresh s = (s.next_timestamp_tx ≤ now) × ((fresh ≡ true) ⊎ (s.unconfirmed_txs ≡ []))

abbrev pub IsOutcome : Config → Node → Library → ℕ → Bool → Stamper → Stamper → Type 0
IsOutcome c n l now fresh s t = IsKept s t × (IsUnsent s t ⊎ (IsSent c n l s t × IsDue now fresh s))

none_in_flight : (us : List UnconfirmedTimestampTx) → is_none (last_tx us) ≡ true → us ≡ []
unfolding last_tx
none_in_flight [] h = refl
none_in_flight (u ∷ []) h = cc
none_in_flight (u ∷ v ∷ us) h = absurd (later u v us h)
  where
    later :
        (u v : UnconfirmedTimestampTx) (us : List UnconfirmedTimestampTx)
        → is_none (last_tx (u ∷ v ∷ us)) ≡ true
        → ⊥
    later u v [] e = cc
    later u v (w ∷ us) e = later v w us e

after_clock-IsPass :
    (fuel : ℕ) (c : Config) (n : Node) (l : Library) (departure : ℕ) (s : Stamper)
    → IsPass c n l s (after_clock fuel c n l departure s).1
after_clock-IsPass fuel c n l departure s = elim (Bool-cases (length s.pending_commitments == 0)) [
  | inl empty ↦ rw empty (moved (is_none (last_tx s.unconfirmed_txs)))
  | inr pending ↦ rw pending (
      send_cycle-IsPass fuel c n l s
        (λ e. differ (sym ((==_iff (length s.pending_commitments) 0).1 e) ∙ pending))
        (last_tx s.unconfirmed_txs))
]
  where
    differ : ◌≡◌ {A = Bool} true false → ⊥
    differ e = cc

    moved : (b : Bool) → IsPass c n l s (idle_pass b departure s)
    moved true =
        (record { pending = refl; mined = refl; indexes = refl; cursor = refl }, inl (inl refl))
    moved false = (same s, inl (inl refl))

-- Whatever the wallet and the node answer, and for every number of rounds: a pass of the sending
-- changes nothing of the commitments, their trees and their indexes, and either adds no version,
-- or adds one that the node accepted, over all pending commitments, at a fee that is within the
-- cap, after the time of departure, and only where no version was in flight or a block was new.
pub send_pass-IsOutcome :
    (fuel : ℕ) (c : Config) (n : Node) (l : Library) (now departure : ℕ) (fresh : Bool)
    (s : Stamper)
    → IsOutcome c n l now fresh s (send_pass fuel c n l now departure fresh s).1
unfolding send_pass
send_pass-IsOutcome fuel c n l now departure fresh s = elim (Bool-cases fresh) [
  | inl new ↦ rw new (clock true (inl refl))
  | inr old ↦ rw old (elim (Bool-cases (is_none (last_tx s.unconfirmed_txs))) [
    | inl free ↦ subst tested (sym free) (clock false (inr (none_in_flight s.unconfirmed_txs free)))
    | inr flying ↦ subst tested (sym flying) (same s, inl (inl refl))
  ])
]
  where
    tested : Bool → Type 0
    tested b =
        IsOutcome c n l now false s
          (if not b
            then (done, s)
            else if ltb now s.next_timestamp_tx
            then (done, s)
            else after_clock fuel c n l departure s).1

    sent : (b : Bool) (t : Stamper) → IsDue now b s → IsPass c n l s t → IsOutcome c n l now b s t
    sent b t due (kept, inl unsent) = (kept, inl unsent)
    sent b t due (kept, inr went) = (kept, inr (went, due))

    clock :
        (b : Bool)
        → (b ≡ true) ⊎ (s.unconfirmed_txs ≡ [])
        → IsOutcome c n l now b s
            (if ltb now s.next_timestamp_tx
              then (done, s)
              else after_clock fuel c n l departure s).1
    clock b due = elim (Bool-cases (ltb now s.next_timestamp_tx)) [
      | inl early ↦ rw early (same s, inl (inl refl))
      | inr late ↦ rw late (
          sent b (after_clock fuel c n l departure s).1 (ground (arith, late), due)
            (after_clock-IsPass fuel c n l departure s))
    ]
