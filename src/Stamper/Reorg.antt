-- ===== src/Stamper/Reorg.antt =====
-- otsserver/stamper.py: the journal entries across `__do_bitcoin` from a new header to its body.
use mathlib.Core.Bool.{◌||◌}
use mathlib.Core.Option.{some-injective}
use mathlib.Core.List.{reverse}
use opentimestamps_server.Prelude.{
  ℕ, ◌≤◌, ◌<◌, ◌≡◌, refl, ap, ◌∙◌, sym, subst, true, false, Option, none, some, List, [], ◌∷◌,
  Bytes, bytes_eq, bytes_eq_iff, elem, elem-append, take, drop, take-append-drop, arith,
  if◌then◌else◌, Bool-cases, inl, inr, ◌⊎◌, ==_iff, ==-false, ℕ_discrete,
}
use opentimestamps_server.Prelude.Dict.{Dict, lookup, Values}
use opentimestamps_server.Prelude.NatDict
use opentimestamps_server.Stamper.{
  Stamper, TimestampTx, UnconfirmedTimestampTx, KnownBlock, add, add_all,
}
use opentimestamps_server.Stamper.Coverage.{IsOutstanding, IsComplete, elem-add_old, elem-add_self}
use opentimestamps_server.Stamper.Blocks.{
  Pass, Outcome, done, raised, pop_reorged, put_back, find_mined, mine, confirm, read_body,
  process_block, process_queue, process_blocks, retire,
}

elem-add_all_old :
    (c : Bytes) (set cs : List Bytes) → elem c set ≡ true → elem c (add_all set cs) ≡ true
unfolding add_all
elem-add_all_old c set [] h = h
elem-add_all_old c set (d ∷ cs) h = elem-add_all_old c (add set d) cs (elem-add_old c d set h)

elem-add_all : (c : Bytes) (set cs : List Bytes) → elem c cs ≡ true → elem c (add_all set cs) ≡ true
unfolding add_all
elem-add_all c set [] h = unfold elem in cc
elem-add_all c set (d ∷ cs) h = elim (Bool-cases (bytes_eq d c)) [
  | inl same ↦
      elem-add_all_old c (add set d) cs
        (subst (λ z. elem z (add set d) ≡ true) ((bytes_eq_iff d c).0 same) (elem-add_self d set))
  | inr other ↦ elem-add_all c (add set d) cs (unfold elem in (rw other at h))
]

-- What keeps the coverage: the indexes on record stay, and what is outstanding stays outstanding.
pub keep :
    (journal : ℕ → Option Bytes) (held : List Bytes) (n : ℕ) (s s' : Stamper)
    → s'.commitment_idxs ≡ s.commitment_idxs
    → ((c : Bytes) → IsOutstanding c s → IsOutstanding c s')
    → IsComplete journal held n s
    → IsComplete journal held n s'
keep journal held n s s' same moves h = record {
  indexed = λ i c lt at.
      subst (λ (d : Dict ℕ). (elem c held ≡ true) ⊎ ((j : ℕ) × (lookup c d ≡ some j) × (j ≤ i)))
        (sym same) (h.indexed i c lt at);
  outstanding = λ c j e. moves c (h.outstanding c j (ap (lookup c) (sym same) ∙ e));
  below = subst (Values (λ j. j < n)) (sym same) h.below;
}

put_back-moves :
    (o : Option TimestampTx) (height : ℕ) (s : Stamper) (c : Bytes)
    → NatDict.lookup height s.txs_waiting_for_confirmation ≡ o
    → IsOutstanding c s
    → IsOutstanding c (put_back o height s)
put_back-moves none height s c e out = out
put_back-moves (some tx) height s c e (inl there) =
    inl (elem-add_all_old c s.pending_commitments tx.commitments there)
put_back-moves (some tx) height s c e (inr (k, t, at, there)) = elim (ℕ_discrete height k) [
  | yes same ↦ inl (
      elem-add_all c s.pending_commitments tx.commitments (
        subst (λ (u : TimestampTx). elem c u.commitments ≡ true)
          (some-injective t tx
            (sym at ∙ ap (λ z. NatDict.lookup z s.txs_waiting_for_confirmation) (sym same) ∙ e))
          there))
  | no other ↦ inr (
    k,
    t,
    NatDict.lookup-erase height k s.txs_waiting_for_confirmation
        ∙ ap (λ b. if b then none else NatDict.lookup k s.txs_waiting_for_confirmation)
            (==-false height k other)
        ∙ at,
    there,
  )
]

-- Nothing waits at a height once its tree was put back.
put_back-empties :
    (o : Option TimestampTx) (height : ℕ) (s : Stamper)
    → NatDict.lookup height s.txs_waiting_for_confirmation ≡ o
    → NatDict.lookup height (put_back o height s).txs_waiting_for_confirmation ≡ none
put_back-empties none height s e = e
put_back-empties (some tx) height s e =
    NatDict.lookup-erase height height s.txs_waiting_for_confirmation
    ∙ ap (λ b. if b then none else NatDict.lookup height s.txs_waiting_for_confirmation)
        ((==_iff height height).1 refl)

-- The pending commitments of a mined transaction wait in its tree, at a height that was free.
mine-moves :
    (p : Pass) (height : ℕ) (tx : UnconfirmedTimestampTx) (s : Stamper) (c : Bytes)
    → NatDict.lookup height s.txs_waiting_for_confirmation ≡ none
    → IsOutstanding c s
    → IsOutstanding c (mine p height tx s)
mine-moves p height tx s c free (inl there) =
    elim (Bool-cases (elem c (drop tx.n s.pending_commitments))) [
      | inl rest ↦ inl rest
      | inr gone ↦ inr (
        height,
        mined_tx,
        NatDict.lookup-insert height height mined_tx s.txs_waiting_for_confirmation
            ∙ ap
                (λ b.
                  if b then some mined_tx else NatDict.lookup height s.txs_waiting_for_confirmation)
                ((==_iff height height).1 refl),
        taken gone,
      )
    ]
  where
    mined_tx : TimestampTx
    mined_tx = record {
      txid = tx.txid;
      commitments = take tx.n s.pending_commitments;
      fee = tx.fee;
      height = height;
      records = tx.records;
    }

    both :
        (elem c (take tx.n s.pending_commitments) || elem c (drop tx.n s.pending_commitments))
        ≡ elem c s.pending_commitments
    both =
        sym (elem-append c (take tx.n s.pending_commitments) (drop tx.n s.pending_commitments))
        ∙ ap (elem c) (take-append-drop tx.n s.pending_commitments)

    taken :
        elem c (drop tx.n s.pending_commitments) ≡ false
        → elem c (take tx.n s.pending_commitments) ≡ true
    taken gone = ground (arith, both)
mine-moves p height tx s c free (inr (k, t, at, there)) = elim (ℕ_discrete height k) [
  | yes same ↦
      absurd
        (no_tree (sym free ∙ ap (λ z. NatDict.lookup z s.txs_waiting_for_confirmation) same ∙ at))
  | no other ↦ inr (k, t, rw NatDict.lookup-insert (rw (==-false height k other) at), there)
]
  where
    no_tree : ◌≡◌ {A = Option TimestampTx} none (some t) → ⊥
    no_tree e = cc

-- One block, read or not, and confirmed or refused on the way, with its reorg.
process_block-moves :
    (p : Pass) (b : KnownBlock) (body : Option (List Bytes)) (s : Stamper) (c : Bytes)
    → IsOutstanding c s
    → IsOutstanding c (process_block p b body s).1
unfolding process_block pop_reorged
process_block-moves p b body s c out =
    read_body-moves body
      (put_back (NatDict.lookup b.height s.txs_waiting_for_confirmation) b.height s)
      (put_back-empties (NatDict.lookup b.height s.txs_waiting_for_confirmation) b.height s refl)
      (put_back-moves (NatDict.lookup b.height s.txs_waiting_for_confirmation) b.height s c refl
        out)
  where
    confirm-moves :
        (o : Option UnconfirmedTimestampTx) (u : Stamper)
        → NatDict.lookup b.height u.txs_waiting_for_confirmation ≡ none
        → IsOutstanding c u
        → IsOutstanding c (confirm p b.height o u).1
    confirm-moves none u free h = h
    confirm-moves (some tx) u free h =
        elim (Bool-cases (bytes_eq (p.tip_of (take tx.n u.pending_commitments)) tx.tip)) [
          | inl ok ↦ rw ok (mine-moves p b.height tx u c free h)
          | inr bad ↦ rw bad h
        ]

    read_body-moves :
        (o : Option (List Bytes)) (u : Stamper)
        → NatDict.lookup b.height u.txs_waiting_for_confirmation ≡ none
        → IsOutstanding c u
        → IsOutstanding c (read_body p b o u).1
    read_body-moves none u free h = h
    read_body-moves (some txids) u free h =
        confirm-moves (find_mined txids (reverse u.unconfirmed_txs)) u free h

process_block-idxs :
    (p : Pass) (b : KnownBlock) (body : Option (List Bytes)) (s : Stamper)
    → (process_block p b body s).1.commitment_idxs ≡ s.commitment_idxs
unfolding process_block pop_reorged
process_block-idxs p b body s = ground arith

pub process_queue-IsComplete :
    (journal : ℕ → Option Bytes) (held : List Bytes) (n : ℕ) (p : Pass)
    (body : Bytes → Option (List Bytes)) (bs : List KnownBlock) (s : Stamper)
    → IsComplete journal held n s
    → IsComplete journal held n (process_queue p body bs s).1
unfolding process_queue
process_queue-IsComplete journal held n p body [] s h = h
process_queue-IsComplete journal held n p body (b ∷ bs) s h =
    next (process_block p b (body b.hash) s).0 (process_block p b (body b.hash) s).1
      (keep journal held n s (process_block p b (body b.hash) s).1
        (process_block-idxs p b (body b.hash) s)
        (λ c out. process_block-moves p b (body b.hash) s c out) h)
      (λ u k. process_queue-IsComplete journal held n p body bs u k)
  where
    next :
        (r : Outcome) (u : Stamper)
        → IsComplete journal held n u
        → ((v : Stamper)
            → IsComplete journal held n v
            → IsComplete journal held n (process_queue p body bs v).1)
        → IsComplete journal held n
            (elim r as (λ _. Outcome × Stamper) [
              | done ↦ process_queue p body bs (retire u)
              | raised ↦ (raised, u)
            ]).1
    next done u k rest = rest (retire u) (keep journal held n u (retire u) refl (λ c out. out) k)
    next raised u k rest = k

-- Whatever blocks stand in the queue, whichever of their bodies can be read, and whether or not an
-- assertion fails on the way: reading them, with the reorgs that they announce, leaves every
-- journal entry behind the cursor in the database or outstanding, where it was so before.
pub process_blocks-IsComplete :
    (journal : ℕ → Option Bytes) (held : List Bytes) (n : ℕ) (p : Pass)
    (body : Bytes → Option (List Bytes)) (s : Stamper)
    → IsComplete journal held n s
    → IsComplete journal held n (process_blocks p body s).1
unfolding process_blocks
process_blocks-IsComplete journal held n p body s h =
    process_queue-IsComplete journal held n p body s.unprocessed_blocks s h

process_block-cursor :
    (p : Pass) (b : KnownBlock) (body : Option (List Bytes)) (s : Stamper)
    → (process_block p b body s).1.journal_cursor ≡ s.journal_cursor
unfolding process_block pop_reorged
process_block-cursor p b body s = ground arith

process_queue-cursor :
    (p : Pass) (body : Bytes → Option (List Bytes)) (bs : List KnownBlock) (s : Stamper)
    → (process_queue p body bs s).1.journal_cursor ≡ s.journal_cursor
unfolding process_queue
process_queue-cursor p body [] s = refl
process_queue-cursor p body (b ∷ bs) s =
    next (process_block p b (body b.hash) s).0 (process_block p b (body b.hash) s).1
      (process_block-cursor p b (body b.hash) s)
      (process_queue-cursor p body bs (retire (process_block p b (body b.hash) s).1))
  where
    next :
        (r : Outcome) (u : Stamper)
        → u.journal_cursor ≡ s.journal_cursor
        → (process_queue p body bs (retire u)).1.journal_cursor ≡ u.journal_cursor
        → (elim r as (λ _. Outcome × Stamper) [
          | done ↦ process_queue p body bs (retire u)
          | raised ↦ (raised, u)
        ]).1.journal_cursor
          ≡ s.journal_cursor
    next done u e rest = rest ∙ e
    next raised u e rest = e

pub process_blocks-cursor :
    (p : Pass) (body : Bytes → Option (List Bytes)) (s : Stamper)
    → (process_blocks p body s).1.journal_cursor ≡ s.journal_cursor
unfolding process_blocks
process_blocks-cursor p body s = process_queue-cursor p body s.unprocessed_blocks s
