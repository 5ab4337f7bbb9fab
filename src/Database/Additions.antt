-- ===== src/Database/Additions.antt =====
-- otsserver/calendar.py: `LevelDbCalendar.__add_timestamp`, by induction on a timestamp.
use opentimestamps_server.Prelude.{
  false, Option, none, some, List, Bytes, bytes_eq, bytes_eq_iff, starts_with, ◌≡◌, refl, sym,
  subst, ◌∙◌, Bool-cases, inl, inr,
}
use opentimestamps_server.Prelude.Dict.{Dict}
use opentimestamps_server.Database.{meta_prefix}
use opentimestamps_server.Database.Timestamps.{
  Timestamp, timestamp, Stamps, leaf, branch, Node, Package, Got, got, key_error, raises,
  get_timestamp, Batch, op_list, put_timestamp, merge, merged, put_after, shallow, add_timestamp,
  add_stamps,
}
use opentimestamps_server.Database.Readback.{IsPackage}
use opentimestamps_server.Database.Merge.{
  node_of, IsWhole, IsPart, IsPart-refl, node_at, IsHeld, AreHeld, IsGrown, IsGrown-trans,
  IsHeld-grown, AreHeld-grown, bare-AreHeld, merge-IsNode, IsPart-merge, merge-IsCovered,
}
use opentimestamps_server.Database.Puts.{
  IsAbsent, AreAbsent, IsPlain, ArePlain, after_batch, IsBatch, existing-get_timestamp, IsPut,
  put_timestamp-IsPut,
}

module _ {A O : Type 0} (p : Package A O) (laws : IsPackage p) (db : Dict Bytes) where
  -- How a batch goes on over timestamps: those of whom a message is none keep what they hold of it.
  pub record IsAdded (b c : Batch A O) (IsDone : Type 0) (absent : Bytes → Type 0) : Type 0 where
    pub batch : (IsBatch p laws db) c
    pub grown : IsGrown p ((after_batch p laws db) b) ((after_batch p laws db) c)
    pub others :
        (m : Bytes)
        → absent m
        → get_timestamp p ((after_batch p laws db) c) m
          ≡ get_timestamp p ((after_batch p laws db) b) m
    pub held : IsDone

  abbrev pub Adds : Timestamp A O → Batch A O → Option (Batch A O) → Type 0
  Adds t b o =
      (c : Batch A O) × (o ≡ some c)
      × IsAdded b c (IsHeld p ((after_batch p laws db) c) t) (λ m. IsAbsent m t)

  abbrev AddStamps : Stamps A O → Batch A O → Option (Batch A O) → Type 0
  AddStamps stamps b o =
      (c : Batch A O) × (o ≡ some c)
      × IsAdded b c (AreHeld p ((after_batch p laws db) c) stamps) (λ m. AreAbsent m stamps)

  module _ (msg : Bytes) (attestations : List A) (stamps : Stamps A O) (b c : Batch A O)
      (plain : starts_with msg meta_prefix ≡ false) (above : AreAbsent msg stamps)
      (h : (IsBatch p laws db) b)
      (below : IsAdded b c
        (AreHeld p ((after_batch p laws db) c) stamps)
        (λ m. AreAbsent m stamps)) where
    put-Adds :
        (g : Got A O)
        → get_timestamp p ((after_batch p laws db) b) msg ≡ g
        → Adds
            (timestamp msg attestations stamps)
            b
            (put_after p msg (merge p attestations (op_list stamps) (node_of g)) (some c))
    unfolding IsHeld IsAbsent
    put-Adds g e =
        let node = merge p attestations (op_list stamps) (node_of g) in
        let d = put_timestamp p msg node c in
        (
          d,
          refl,
          record {
            batch = put.batch;
            grown =
                IsGrown-trans p ((after_batch p laws db) b) ((after_batch p laws db) c)
                  ((after_batch p laws db) d) below.grown grows;
            others = λ m (ne, absent). put.others m ne ∙ below.others m absent;
            held = (
              rw put.put (merge-IsCovered p laws attestations stamps (node_of g)),
              AreHeld-grown p ((after_batch p laws db) c) ((after_batch p laws db) d) stamps grows
                  below.held,
            );
          },
        )
      where
        merged_node : Node A O
        merged_node = merge p attestations (op_list stamps) (node_of g)

        put : (IsPut p laws db) msg merged_node c (put_timestamp p msg merged_node c)
        put =
            (put_timestamp-IsPut p laws db) msg merged_node c plain
              (merge-IsNode p attestations (op_list stamps) g
                (subst (λ r. IsWhole p r) e (h.whole msg)))
              below.batch

        here : get_timestamp p ((after_batch p laws db) c) msg ≡ g
        here = below.others msg above ∙ e

        grows :
            IsGrown p
              ((after_batch p laws db) c)
              ((after_batch p laws db) (put_timestamp p msg merged_node c))
        grows m = elim (Bool-cases (bytes_eq msg m)) [
          | inl same ↦
              subst
                (λ k.
                  IsPart p (node_at p ((after_batch p laws db) c) k)
                    (node_at p ((after_batch p laws db) (put_timestamp p msg merged_node c)) k))
                ((bytes_eq_iff msg m).0 same)
                (rw here (rw put.put (IsPart-merge p attestations (op_list stamps) (node_of g))))
          | inr ne ↦
              IsPart-refl p (get_timestamp p ((after_batch p laws db) c) m)
                (get_timestamp p ((after_batch p laws db) (put_timestamp p msg merged_node c)) m)
                (put.others m ne)
        ]

    settled :
        (g : Got A O)
        → get_timestamp p ((after_batch p laws db) b) msg ≡ g
        → Adds
            (timestamp msg attestations stamps)
            b
            (merged p db msg attestations stamps b (some c) g)
    unfolding IsHeld
    settled raises e = absurd (subst (λ r. IsWhole p r) e (h.whole msg))
    settled key_error e = put-Adds key_error e
    settled (got node) e =
        elim (Bool-cases (p.equal (shallow p msg node) (timestamp msg attestations stamps))) [
          | inl equal ↦ rw equal (
            b,
            refl,
            record {
              batch = h;
              grown = λ m.
                  IsPart-refl p (get_timestamp p ((after_batch p laws db) b) m)
                    (get_timestamp p ((after_batch p laws db) b) m) refl;
              others = λ m absent. refl;
              held = (
                rw e (laws.equal_told msg node attestations stamps equal).0,
                bare-AreHeld p ((after_batch p laws db) b) stamps
                    (laws.equal_told msg node attestations stamps equal).1,
              );
            },
          )
          | inr other ↦ rw other (put-Adds (got node) e)
        ]

  mutual
    unfolding add_timestamp IsPlain IsHeld

    pub add_timestamp-Adds :
        (t : Timestamp A O) (b : Batch A O)
        → IsPlain t
        → (IsBatch p laws db) b
        → Adds t b (add_timestamp p db t b)
    add_timestamp-Adds (timestamp msg attestations stamps) b (plain, above, below_plain) h =
        let (c, added, below) = add_stamps-AddStamps stamps b below_plain h in
        rw added (
          rw ((existing-get_timestamp p laws db) msg b plain h) (
            settled msg attestations stamps b c plain above h below
              (get_timestamp p ((after_batch p laws db) b) msg) refl))

    add_stamps-AddStamps :
        (stamps : Stamps A O) (b : Batch A O)
        → ArePlain stamps
        → (IsBatch p laws db) b
        → AddStamps stamps b (add_stamps p db stamps b)
    add_stamps-AddStamps leaf b plain h = (
      b,
      refl,
      record {
        batch = h;
        grown = λ m.
            IsPart-refl p (get_timestamp p ((after_batch p laws db) b) m)
              (get_timestamp p ((after_batch p laws db) b) m) refl;
        others = λ m absent. refl;
        held = tt;
      },
    )
    add_stamps-AddStamps (branch op t rest) b (plain, rest_plain) h =
        let (c, added, first) = add_timestamp-Adds t b plain h in
        let (d, added_rest, later) = add_stamps-AddStamps rest c rest_plain first.batch in
        (
          d,
          subst (λ o. elim o [ none ↦ none | some after ↦ add_stamps p db rest after ] ≡ some d)
              (sym added) added_rest,
          record {
            batch = later.batch;
            grown =
                IsGrown-trans p ((after_batch p laws db) b) ((after_batch p laws db) c)
                  ((after_batch p laws db) d) first.grown later.grown;
            others = λ m (absent, absent_rest). later.others m absent_rest ∙ first.others m absent;
            held = (
              IsHeld-grown p ((after_batch p laws db) c) ((after_batch p laws db) d) t later.grown
                  first.held,
              later.held,
            );
          },
        )
