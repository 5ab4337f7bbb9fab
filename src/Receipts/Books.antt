-- ===== src/Receipts/Books.antt =====
-- otsserver/stamper.py: the receipts file and its markers as the books of the saved anchors.
use mathlib.Core.Bool.{◌||◌}
use opentimestamps_server.Prelude.{
  ℕ, ◌+◌, ◌≡◌, ◌∙◌, refl, sym, ap, subst, Bool, true, false, Option, none, some, List, [], ◌∷◌,
  ◌++◌, Bytes, bytes_eq, bytes_eq_iff, bytes_eq_refl, elem, append-nil, append_assoc, if◌then◌else◌,
  Bool-cases, inl, inr, ◌⊎◌, arith,
}
use opentimestamps_server.Prelude.Dict.{lookup, erase, lookup-erase}
use opentimestamps_server.Receipts.{
  Receipt, Marker, readable, unreadable, Files, Append, synced, refused, interrupted, dropped,
  unsynced, Io, complete_lines, sync, recover_receipt_tail, append_line, settled, receipt_on_file,
  append_anchor_receipt, unlink, recovered, settle_receipt, settle_found,
}

-- No anchor has two receipts.
abbrev pub IsSingle : List Receipt → Type 0
IsSingle [] = Unit
IsSingle (r ∷ rs) = (receipt_on_file r.txid rs ≡ false) × IsSingle rs

abbrev pub IsReceipted : Files → Bytes → Type 0
IsReceipted f c =
    (receipt_on_file c f.lines ≡ true) ⊎ ((r : Receipt) × (lookup c f.markers ≡ some (readable r)))

-- Every anchor in the calendar has its receipt on file and synced, or a marker that holds it; every
-- receipt on file is an anchor's in the calendar; none is there twice; and a marker's name is its
-- txid.
pub record IsBooked (f : Files) : Type 0 where
  pub owed : (c : Bytes) → elem c f.calendar ≡ true → IsReceipted f c
  pub earned : (c : Bytes) → receipt_on_file c (complete_lines f) ≡ true → elem c f.calendar ≡ true
  pub single : IsSingle (complete_lines f)
  pub named : (c : Bytes) (r : Receipt) → lookup c f.markers ≡ some (readable r) → r.txid ≡ c

receipt_on_file-append :
    (c : Bytes) (rs : List Receipt) (r : Receipt)
    → receipt_on_file c (rs ++ r ∷ []) ≡ (receipt_on_file c rs || bytes_eq r.txid c)
unfolding receipt_on_file
receipt_on_file-append c [] r = ground arith
receipt_on_file-append c (q ∷ rs) r = ground (arith, receipt_on_file-append c rs r)

pub absurd_bool : ◌≡◌ {A = Bool} true false → ⊥
absurd_bool e = cc

or_false : (a b : Bool) → (a || b) ≡ false → (a ≡ false) × (b ≡ false)
or_false a b h = ground arith

or_true : (a b : Bool) → (a || b) ≡ true → (a ≡ true) ⊎ (b ≡ true)
or_true a b h = ground arith

IsSingle-append :
    (rs : List Receipt) (r : Receipt)
    → receipt_on_file r.txid rs ≡ false
    → IsSingle rs
    → IsSingle (rs ++ r ∷ [])
unfolding receipt_on_file
IsSingle-append [] r new h = (refl, tt)
IsSingle-append (q ∷ rs) r new h =
    let (other, rest) = or_false (bytes_eq q.txid r.txid) (receipt_on_file r.txid rs) new in
    (receipt_on_file-append q.txid rs r ∙ rw h.0 (turned other), IsSingle-append rs r rest h.1)
  where
    turned : bytes_eq q.txid r.txid ≡ false → bytes_eq r.txid q.txid ≡ false
    turned other = ground (arith, other, bytes_eq_iff r.txid q.txid, bytes_eq_iff q.txid r.txid)

pub on_file_more :
    (c : Bytes) (rs qs : List Receipt)
    → receipt_on_file c (rs ++ qs) ≡ (receipt_on_file c rs || receipt_on_file c qs)
unfolding receipt_on_file
on_file_more c [] qs = refl
on_file_more c (r ∷ rs) qs = ground (arith, on_file_more c rs qs)

pub IsSingle-prefix : (rs qs : List Receipt) → IsSingle (rs ++ qs) → IsSingle rs
IsSingle-prefix [] qs h = tt
IsSingle-prefix (r ∷ rs) qs (new, h) = (
  (or_false (receipt_on_file r.txid rs) (receipt_on_file r.txid qs)
      (sym (on_file_more r.txid rs qs) ∙ new)).0,
  IsSingle-prefix rs qs h,
)

-- A line that is written for an anchor in the calendar, behind no incomplete one.
pub written-IsBooked :
    (f : Files) (r : Receipt)
    → receipt_on_file r.txid (complete_lines f) ≡ false
    → elem r.txid f.calendar ≡ true
    → IsBooked f
    → IsBooked (record f { unsynced_lines = f.unsynced_lines ++ r ∷ [] })
written-IsBooked f r new there h = record {
  owed = h.owed;
  earned = λ c e. from_line c (
      or_true (receipt_on_file c (complete_lines f)) (bytes_eq r.txid c) (
        sym (receipt_on_file-append c (complete_lines f) r) ∙ ap (receipt_on_file c) one_more ∙ e));
  single = subst IsSingle one_more (IsSingle-append (complete_lines f) r new h.single);
  named = h.named;
}
  where
    one_more : (f.lines ++ f.unsynced_lines) ++ r ∷ [] ≡ f.lines ++ (f.unsynced_lines ++ r ∷ [])
    one_more = append_assoc f.lines f.unsynced_lines (r ∷ [])

    from_line :
        (c : Bytes)
        → (receipt_on_file c (complete_lines f) ≡ true) ⊎ (bytes_eq r.txid c ≡ true)
        → elem c f.calendar ≡ true
    from_line c (inl old) = h.earned c old
    from_line c (inr same) =
        subst (λ z. elem z f.calendar ≡ true) ((bytes_eq_iff r.txid c).0 same) there

pub sync-IsBooked : (f : Files) → IsBooked f → IsBooked (sync f)
sync-IsBooked f h = record {
  owed = λ c e. still c (h.owed c e);
  earned = λ c e. h.earned c (ap (receipt_on_file c) (sym all) ∙ e);
  single = subst IsSingle (sym all) h.single;
  named = h.named;
}
  where
    all : (f.lines ++ f.unsynced_lines) ++ [] ≡ f.lines ++ f.unsynced_lines
    all = append-nil (f.lines ++ f.unsynced_lines)

    still : (c : Bytes) → IsReceipted f c → IsReceipted (sync f) c
    still c (inl on) = inl (on_file_more c f.lines f.unsynced_lines ∙ rw on refl)
    still c (inr stands) = inr stands

pub torn-IsBooked : (f : Files) (t : Bool) → IsBooked f → IsBooked (record f { torn = t })
torn-IsBooked f t h = record {
  owed = h.owed;
  earned = h.earned;
  single = h.single;
  named = h.named;
}

-- The file once its incomplete tail is dropped.
pub record IsRecovered (f g : Files) : Type 0 where
  pub torn : g.torn ≡ false
  pub complete : complete_lines g ≡ complete_lines f
  pub markers : g.markers ≡ f.markers
  pub calendar : g.calendar ≡ f.calendar
  pub booked : IsBooked f → IsBooked g

pub recover_receipt_tail-IsRecovered : (f : Files) → IsRecovered f (recover_receipt_tail f)
recover_receipt_tail-IsRecovered f = elim (Bool-cases f.torn) [
  | inl torn ↦
      subst (λ b. IsRecovered f (if b then sync (record f { torn = false }) else f)) (sym torn)
        (record {
          torn = refl;
          complete = append-nil (f.lines ++ f.unsynced_lines);
          markers = refl;
          calendar = refl;
          booked = λ h. sync-IsBooked (record f { torn = false }) (torn-IsBooked f false h);
        })
  | inr sound ↦
      subst (λ b. IsRecovered f (if b then sync (record f { torn = false }) else f)) (sym sound)
        (record { torn = sound; complete = refl; markers = refl; calendar = refl; booked = λ h. h })
]

-- A marker goes that no anchor in the calendar needs.
erased-IsBooked :
    (f : Files) (name : Bytes) (n : ℕ)
    → (elem name f.calendar ≡ true
        → (receipt_on_file name f.lines ≡ true) ⊎ (lookup name f.markers ≡ some unreadable))
    → IsBooked f
    → IsBooked (record f { markers = erase name f.markers; set_aside = n })
erased-IsBooked f name n spare h = record {
  owed = λ c e. still c e (h.owed c e);
  earned = h.earned;
  single = h.single;
  named = λ c r e. h.named c r (found c r e);
}
  where
    found :
        (c : Bytes) (r : Receipt)
        → lookup c (erase name f.markers) ≡ some (readable r)
        → lookup c f.markers ≡ some (readable r)
    found c r e = elim (Bool-cases (bytes_eq name c)) [
      | inl same ↦ absurd (gone same (sym (lookup-erase name c f.markers) ∙ e))
      | inr other ↦ sym (lookup-erase name c f.markers ∙ rw other refl) ∙ e
    ]
      where
        gone :
            bytes_eq name c ≡ true
            → (if bytes_eq name c then none else lookup c f.markers) ≡ some (readable r)
            → ⊥
        gone same e = cc

    unread : (r : Receipt) → some unreadable ≡ some (readable r) → ⊥
    unread r e = cc

    still_other :
        (c : Bytes)
        → bytes_eq name c ≡ false
        → IsReceipted f c
        → IsReceipted (record f { markers = erase name f.markers; set_aside = n }) c
    still_other c other (inl on) = inl on
    still_other c other (inr (r, stands)) = inr (r, lookup-erase name c f.markers ∙ rw other stands)

    spared :
        (c : Bytes)
        → name ≡ c
        → (receipt_on_file name f.lines ≡ true) ⊎ (lookup name f.markers ≡ some unreadable)
        → IsReceipted f c
        → receipt_on_file c f.lines ≡ true
    spared c same (inl on) o = subst (λ z. receipt_on_file z f.lines ≡ true) same on
    spared c same (inr bad) (inl on) = on
    spared c same (inr bad) (inr (r, stands)) =
        absurd (unread r (sym bad ∙ ap (λ z. lookup z f.markers) same ∙ stands))

    still :
        (c : Bytes)
        → elem c f.calendar ≡ true
        → IsReceipted f c
        → IsReceipted (record f { markers = erase name f.markers; set_aside = n }) c
    still c e o = elim (Bool-cases (bytes_eq name c)) [
      | inr other ↦ still_other c other o
      | inl same ↦
          let eq : name ≡ c = (bytes_eq_iff name c).0 same in
          inl (spared c eq (spare (subst (λ z. elem z f.calendar ≡ true) (sym eq) e)) o)
    ]

pub unlinked-IsBooked :
    (b : Bool) (f : Files) (name : Bytes)
    → (elem name f.calendar ≡ true → receipt_on_file name f.lines ≡ true)
    → IsBooked f
    → IsBooked (unlink b name f)
unlinked-IsBooked true f name spare h = erased-IsBooked f name f.set_aside (λ e. inl (spare e)) h
unlinked-IsBooked false f name spare h = h

-- The append of a receipt that is owed and not on file, by how it ends: the books stay true, and a
-- receipt whose append returned is on file and synced.
pub record IsAppended (r : Receipt) (f : Files) (out : Bool × Files) : Type 0 where
  pub booked : IsBooked out.1
  pub on_file : out.0 ≡ true → receipt_on_file r.txid out.1.lines ≡ true
  pub markers : out.1.markers ≡ f.markers
  pub calendar : out.1.calendar ≡ f.calendar

appends_line :
    (r : Receipt) (g : Files)
    → g.torn ≡ false
    → append_line r g ≡ record g { unsynced_lines = g.unsynced_lines ++ r ∷ [] }
appends_line r g sound =
    ap
      (λ b.
        if b
        then record g { torn = false }
        else record g { unsynced_lines = g.unsynced_lines ++ r ∷ [] })
      sound

pub append_anchor_receipt-IsAppended :
    (a : Append) (r : Receipt) (f : Files)
    → receipt_on_file r.txid (complete_lines f) ≡ false
    → elem r.txid f.calendar ≡ true
    → IsBooked f
    → IsAppended r f (append_anchor_receipt a r f)
append_anchor_receipt-IsAppended a r f new there h =
    shaped a (by_end a (recover_receipt_tail f) (recover_receipt_tail-IsRecovered f))
  where
    differ : ◌≡◌ {A = Bool} false true → ⊥
    differ e = cc

    line :
        (g : Files)
        → IsRecovered f g
        → IsBooked (record g { unsynced_lines = g.unsynced_lines ++ r ∷ [] })
    line g ok =
        written-IsBooked g r (ap (receipt_on_file r.txid) ok.complete ∙ new)
          (ap (elem r.txid) ok.calendar ∙ there) (ok.booked h)

    last : (g : Files) → receipt_on_file r.txid (g.lines ++ (g.unsynced_lines ++ r ∷ [])) ≡ true
    last g =
        ap (receipt_on_file r.txid) (sym (append_assoc g.lines g.unsynced_lines (r ∷ [])))
        ∙ receipt_on_file-append r.txid (g.lines ++ g.unsynced_lines) r
        ∙ rw bytes_eq_refl (ground arith)

    shaped :
        (a : Append)
        → IsAppended r f (elim a [
          | synced ↦ (true, sync (append_line r (recover_receipt_tail f)))
          | refused ↦ (false, f)
          | dropped ↦ (false, recover_receipt_tail f)
          | interrupted ↦ (false, record (recover_receipt_tail f) { torn = true })
          | unsynced ↦ (false, append_line r (recover_receipt_tail f))
        ])
        → IsAppended r f (append_anchor_receipt a r f)
    shaped synced k = k
    shaped refused k = k
    shaped dropped k = k
    shaped interrupted k = k
    shaped unsynced k = k

    by_end :
        (a : Append) (g : Files)
        → IsRecovered f g
        → IsAppended r f (elim a [
          | synced ↦ (true, sync (append_line r g))
          | refused ↦ (false, f)
          | dropped ↦ (false, g)
          | interrupted ↦ (false, record g { torn = true })
          | unsynced ↦ (false, append_line r g)
        ])
    by_end synced g ok =
        subst (λ z. IsAppended r f (true, sync z)) (sym (appends_line r g ok.torn))
          (record {
            booked =
                sync-IsBooked (record g { unsynced_lines = g.unsynced_lines ++ r ∷ [] })
                  (line g ok);
            on_file = λ e. last g;
            markers = ok.markers;
            calendar = ok.calendar;
          })
    by_end refused g ok = record {
      booked = h;
      on_file = λ e. absurd (differ e);
      markers = refl;
      calendar = refl;
    }
    by_end dropped g ok = record {
      booked = ok.booked h;
      on_file = λ e. absurd (differ e);
      markers = ok.markers;
      calendar = ok.calendar;
    }
    by_end interrupted g ok = record {
      booked = torn-IsBooked g true (ok.booked h);
      on_file = λ e. absurd (differ e);
      markers = ok.markers;
      calendar = ok.calendar;
    }
    by_end unsynced g ok =
        subst (λ z. IsAppended r f (false, z)) (sym (appends_line r g ok.torn))
          (record {
            booked = line g ok;
            on_file = λ e. absurd (differ e);
            markers = ok.markers;
            calendar = ok.calendar;
          })

-- A receipt that is owed, not on file, and appended whichever way that ends.
recovered-IsBooked :
    (io : Io) (name : Bytes) (r : Receipt) (f : Files) (out : Bool × Files)
    → r.txid ≡ name
    → IsAppended r f out
    → ((recovered io name out).0 ≡ settled) × IsBooked (recovered io name out).1
recovered-IsBooked io name r f (true, g) same ok = (
  refl,
  unlinked-IsBooked (io.unlinks name) g name
      (λ e. subst (λ z. receipt_on_file z g.lines ≡ true) same (ok.on_file refl)) ok.booked,
)
recovered-IsBooked io name r f (false, g) same ok = (refl, ok.booked)

settle_receipt-IsBooked :
    (io : Io) (name : Bytes) (r : Receipt) (held on : Bool) (f : Files)
    → r.txid ≡ name
    → elem r.txid f.calendar ≡ held
    → receipt_on_file r.txid (complete_lines f) ≡ on
    → IsBooked f
    → let out = settle_receipt io name r held on f in (out.0 ≡ settled) × IsBooked out.1
settle_receipt-IsBooked io name r true true f same held on h = elim (Bool-cases (io.syncs r.txid)) [
  | inl on_disk ↦ rw on_disk (
    refl,
    unlinked-IsBooked (io.unlinks name) (sync f) name
        (λ e. subst (λ z. receipt_on_file z (complete_lines f) ≡ true) same on) (sync-IsBooked f h),
  )
  | inr not_synced ↦ rw not_synced (refl, h)
]
settle_receipt-IsBooked io name r true false f same held on h =
    recovered-IsBooked io name r f (append_anchor_receipt (io.appends r.txid) r f) same
      (append_anchor_receipt-IsAppended (io.appends r.txid) r f on held h)
settle_receipt-IsBooked io name r false true f same held on h =
    absurd (absurd_bool (sym (h.earned r.txid on) ∙ held))
settle_receipt-IsBooked io name r false false f same held on h = (
  refl,
  unlinked-IsBooked (io.unlinks name) f name
      (λ e. absurd (absurd_bool (sym e ∙ subst (λ z. elem z f.calendar ≡ false) same held))) h,
)

pub settle_found-IsBooked :
    (io : Io) (name : Bytes) (o : Option Marker) (f : Files)
    → lookup name f.markers ≡ o
    → IsBooked f
    → let out = settle_found io name o f in (out.0 ≡ settled) × IsBooked out.1
settle_found-IsBooked io name none f at h = (refl, h)
settle_found-IsBooked io name (some unreadable) f at h = elim (Bool-cases (io.renames name)) [
  | inl moved ↦ rw moved (refl, erased-IsBooked f name (f.set_aside + 1) (λ e. inr at) h)
  | inr stays ↦ rw stays (refl, h)
]
settle_found-IsBooked io name (some (readable r)) f at h =
    settle_receipt-IsBooked io name r (elem r.txid f.calendar)
      (receipt_on_file r.txid (complete_lines f)) f (h.named name r at) refl refl h
