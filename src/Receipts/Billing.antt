-- ===== src/Receipts/Billing.antt =====
-- otsserver/stamper.py: `settle_pending_receipt` and `__save_confirmed_timestamp_tx` on any disk.
use opentimestamps_server.Prelude.{
  append-nil, ◌≡◌, ◌∙◌, refl, sym, ap, subst, Bool, true, false, Option, none, some, List, [], ◌∷◌,
  ◌++◌, Bytes, elem, if◌then◌else◌, Bool-cases, inl, inr,
}
use opentimestamps_server.Prelude.Dict.{lookup}
use opentimestamps_server.Receipts.{
  Receipt, Marker, readable, unreadable, Files, Append, synced, refused, dropped, interrupted,
  unsynced, power_loss, Io, complete_lines, sync, append_line, recover_receipt_tail,
  pending_markers, settled, receipt_on_file, append_anchor_receipt, unlink, recovered,
  settle_receipt, settle_found, settle_marker, settle_all, settle_pending_receipt,
}
use opentimestamps_server.Receipts.Books.{
  IsBooked, IsSingle, IsSingle-prefix, on_file_more, recover_receipt_tail-IsRecovered,
  settle_found-IsBooked,
}

settle_all-IsBooked :
    (io : Io) (names : List Bytes) (f : Files)
    → IsBooked f
    → let out = settle_all io names f in (out.0 ≡ settled) × IsBooked out.1
unfolding settle_all settle_marker
settle_all-IsBooked io [] f h = (refl, h)
settle_all-IsBooked io (name ∷ names) f h =
    let one = settle_found-IsBooked io name (lookup name f.markers) f refl h in
    (rw (one.0, settle_all)
      (settle_all-IsBooked io names (settle_found io name (lookup name f.markers) f).1 one.1))

power_loss-IsBooked : (part : Bool) (f : Files) → IsBooked f → IsBooked (power_loss part f)
power_loss-IsBooked part f h = record {
  owed = h.owed;
  earned = λ c e. h.earned c (
      on_file_more c f.lines f.unsynced_lines
      ∙ rw (subst (λ rs. receipt_on_file c rs ≡ true) (append-nil f.lines) e) refl);
  single =
      subst IsSingle (sym (append-nil f.lines)) (IsSingle-prefix f.lines f.unsynced_lines h.single);
  named = h.named;
}

-- The settlement of the markers, whichever of its appends, syncs, removals and renames the disk
-- refuses, keeps every anchor in the calendar receipted or marked, and none receipted twice, and
-- never meets a receipts file that is ahead of the database, where this held before. It holds after
-- a loss of power too, of what was not synced.
pub settle_pending_receipt-IsBooked :
    (io : Io) (part : Bool) (f : Files)
    → IsBooked f
    → let out = settle_pending_receipt io f in
      (out.0 ≡ settled) × IsBooked out.1 × IsBooked (power_loss part out.1)
unfolding settle_pending_receipt
settle_pending_receipt-IsBooked io part f h =
    let (calm, booked) = settle_all-IsBooked io (pending_markers f.markers) f h in
    (calm, booked, power_loss-IsBooked part (settle_all io (pending_markers f.markers) f).1 booked)

unlink-calendar : (b : Bool) (name : Bytes) (f : Files) → (unlink b name f).calendar ≡ f.calendar
unlink-calendar true name f = refl
unlink-calendar false name f = refl

recovered-calendar :
    (io : Io) (name : Bytes) (f : Files) (out : Bool × Files)
    → out.1.calendar ≡ f.calendar
    → (recovered io name out).1.calendar ≡ f.calendar
recovered-calendar io name f (true, g) e = unlink-calendar (io.unlinks name) name g ∙ e
recovered-calendar io name f (false, g) e = e

append_line-calendar : (r : Receipt) (f : Files) → (append_line r f).calendar ≡ f.calendar
append_line-calendar r f = elim (Bool-cases f.torn) [
  | inl torn ↦
      ap
        (λ b.
          (if b
            then record f { torn = false }
            else record f { unsynced_lines = f.unsynced_lines ++ r ∷ [] }).calendar)
        torn
  | inr sound ↦
      ap
        (λ b.
          (if b
            then record f { torn = false }
            else record f { unsynced_lines = f.unsynced_lines ++ r ∷ [] }).calendar)
        sound
]

append_anchor_receipt-calendar :
    (a : Append) (r : Receipt) (f : Files) → (append_anchor_receipt a r f).1.calendar ≡ f.calendar
append_anchor_receipt-calendar a r f = by_end a
  where
    tail : (recover_receipt_tail f).calendar ≡ f.calendar
    tail = (recover_receipt_tail-IsRecovered f).calendar

    line : (append_line r (recover_receipt_tail f)).calendar ≡ f.calendar
    line = append_line-calendar r (recover_receipt_tail f) ∙ tail

    by_end : (a : Append) → (append_anchor_receipt a r f).1.calendar ≡ f.calendar
    by_end synced = line
    by_end refused = refl
    by_end dropped = tail
    by_end interrupted = tail
    by_end unsynced = line

settle_receipt-calendar :
    (io : Io) (name : Bytes) (r : Receipt) (held on : Bool) (f : Files)
    → (settle_receipt io name r held on f).1.calendar ≡ f.calendar
settle_receipt-calendar io name r true true f = elim (Bool-cases (io.syncs r.txid)) [
  | inl on_disk ↦ rw on_disk (unlink-calendar (io.unlinks name) name (sync f))
  | inr not_synced ↦ rw not_synced refl
]
settle_receipt-calendar io name r true false f =
    recovered-calendar io name f (append_anchor_receipt (io.appends r.txid) r f)
      (append_anchor_receipt-calendar (io.appends r.txid) r f)
settle_receipt-calendar io name r false true f = refl
settle_receipt-calendar io name r false false f = unlink-calendar (io.unlinks name) name f

settle_found-calendar :
    (io : Io) (name : Bytes) (o : Option Marker) (f : Files)
    → (settle_found io name o f).1.calendar ≡ f.calendar
settle_found-calendar io name none f = refl
settle_found-calendar io name (some unreadable) f = elim (Bool-cases (io.renames name)) [
  | inl moved ↦ rw moved refl
  | inr stays ↦ rw stays refl
]
settle_found-calendar io name (some (readable r)) f =
    settle_receipt-calendar io name r (elem r.txid f.calendar)
      (receipt_on_file r.txid (complete_lines f)) f

pub settle_all-calendar :
    (io : Io) (names : List Bytes) (f : Files)
    → IsBooked f
    → (settle_all io names f).1.calendar ≡ f.calendar
unfolding settle_all settle_marker
settle_all-calendar io [] f h = refl
settle_all-calendar io (name ∷ names) f h =
    let one = settle_found-IsBooked io name (lookup name f.markers) f refl h in
    (rw (one.0, settle_all)
      (settle_all-calendar io names (settle_found io name (lookup name f.markers) f).1 one.1
        ∙ settle_found-calendar io name (lookup name f.markers) f))
