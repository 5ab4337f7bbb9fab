-- ===== src/Receipts/Settlement.antt =====
-- otsserver/stamper.py: `settle_pending_receipt` on a disk that refuses nothing.
use mathlib.Core.Bool.{◌||◌}
use opentimestamps_server.Prelude.{
  ◌≡◌, ◌∙◌, refl, sym, ap, subst, Bool, true, false, Option, none, some, List, [], ◌∷◌, ◌++◌,
  if◌then◌else◌, Bytes, bytes_eq, bytes_eq_iff, elem, Bool-cases, inl, inr, ◌⊎◌, arith,
}
use opentimestamps_server.Prelude.Dict.{Dict, lookup, erase, lookup-erase}
use opentimestamps_server.Receipts.{
  Receipt, Marker, readable, unreadable, Files, synced, Io, settled, receipt_on_file,
  complete_lines, append_line, recover_receipt_tail, insert_name, pending_markers, settle_receipt,
  settle_found, settle_marker, settle_all, settle_pending_receipt,
}
use opentimestamps_server.Receipts.Books.{
  IsBooked, recover_receipt_tail-IsRecovered, IsReceipted, IsSingle, absurd_bool,
  settle_found-IsBooked,
}
use opentimestamps_server.Receipts.Billing.{settle_pending_receipt-IsBooked, settle_all-calendar}

-- The disk refuses nothing while markers are settled.
pub record IsFaultless (io : Io) : Type 0 where
  pub appends : (c : Bytes) → io.appends c ≡ synced
  pub syncs : (c : Bytes) → io.syncs c ≡ true
  pub unlinks : (c : Bytes) → io.unlinks c ≡ true
  pub renames : (c : Bytes) → io.renames c ≡ true

append_line-markers : (r : Receipt) (f : Files) → (append_line r f).markers ≡ f.markers
append_line-markers r f = elim (Bool-cases f.torn) [
  | inl torn ↦
      ap
        (λ b.
          (if b
            then record f { torn = false }
            else record f { unsynced_lines = f.unsynced_lines ++ r ∷ [] }).markers)
        torn
  | inr sound ↦
      ap
        (λ b.
          (if b
            then record f { torn = false }
            else record f { unsynced_lines = f.unsynced_lines ++ r ∷ [] }).markers)
        sound
]

-- The markers after a settlement that did not stop.
settle_receipt-markers :
    (io : Io) (name : Bytes) (r : Receipt) (held on : Bool) (f : Files)
    → IsFaultless io
    → (settle_receipt io name r held on f).0 ≡ settled
    → (settle_receipt io name r held on f).1.markers ≡ erase name f.markers
settle_receipt-markers io name r true true f io_ok calm =
    rw (io_ok.syncs r.txid) (rw (io_ok.unlinks name) refl)
settle_receipt-markers io name r true false f io_ok calm = rw (io_ok.appends r.txid) (
    rw (io_ok.unlinks name) (
      ap (erase name) (
        append_line-markers r (recover_receipt_tail f)
        ∙ (recover_receipt_tail-IsRecovered f).markers)))
settle_receipt-markers io name r false true f io_ok calm = cc
settle_receipt-markers io name r false false f io_ok calm = rw (io_ok.unlinks name) refl

lookup-erase-none :
    (k c : Bytes) (d : Dict Marker) → (lookup c d ≡ none) ⊎ (k ≡ c) → lookup c (erase k d) ≡ none
lookup-erase-none k c d (inl gone) = lookup-erase k c d ∙ rw gone (ground arith)
lookup-erase-none k c d (inr same) = lookup-erase k c d ∙ rw ((bytes_eq_iff k c).1 same) refl

-- A marker that is gone stays gone, and the marker that is settled goes.
settle_found-gone :
    (io : Io) (name c : Bytes) (o : Option Marker) (f : Files)
    → IsFaultless io
    → lookup name f.markers ≡ o
    → (settle_found io name o f).0 ≡ settled
    → (lookup c f.markers ≡ none) ⊎ (name ≡ c)
    → lookup c (settle_found io name o f).1.markers ≡ none
settle_found-gone io name c none f io_ok at calm (inl gone) = gone
settle_found-gone io name c none f io_ok at calm (inr same) =
    subst (λ z. lookup z f.markers ≡ none) same at
settle_found-gone io name c (some unreadable) f io_ok at calm goes =
    rw (io_ok.renames name) (lookup-erase-none name c f.markers goes)
settle_found-gone io name c (some (readable r)) f io_ok at calm goes =
    ap (lookup c) (
      settle_receipt-markers io name r (elem r.txid f.calendar)
        (receipt_on_file r.txid (complete_lines f)) f io_ok calm)
    ∙ lookup-erase-none name c f.markers goes

settle_all-gone :
    (io : Io) (names : List Bytes) (c : Bytes) (f : Files)
    → IsFaultless io
    → IsBooked f
    → (lookup c f.markers ≡ none) ⊎ (elem c names ≡ true)
    → lookup c (settle_all io names f).1.markers ≡ none
unfolding settle_all settle_marker elem
settle_all-gone io [] c f io_ok h (inl gone) = gone
settle_all-gone io [] c f io_ok h (inr there) = absurd (absurd_bool (sym there))
settle_all-gone io (name ∷ names) c f io_ok h goes =
    let one = settle_found-IsBooked io name (lookup name f.markers) f refl h in
    (rw (one.0, settle_all)
      (settle_all-gone io names c (settle_found io name (lookup name f.markers) f).1 io_ok one.1
        (next goes)))
  where
    gone_by :
        (lookup c f.markers ≡ none) ⊎ (name ≡ c)
        → lookup c (settle_found io name (lookup name f.markers) f).1.markers ≡ none
    gone_by went =
        settle_found-gone io name c (lookup name f.markers) f io_ok refl
          ((settle_found-IsBooked io name (lookup name f.markers) f refl h).0) went

    next :
        (lookup c f.markers ≡ none) ⊎ ((bytes_eq name c || elem c names) ≡ true)
        → (lookup c (settle_found io name (lookup name f.markers) f).1.markers ≡ none)
          ⊎ (elem c names ≡ true)
    next (inl gone) = inl (gone_by (inl gone))
    next (inr there) = elim (Bool-cases (bytes_eq name c)) [
      | inl same ↦ inl (gone_by (inr ((bytes_eq_iff name c).0 same)))
      | inr other ↦ inr (rw other at there)
    ]

elem-insert_name :
    (c d : Bytes) (ds : List Bytes) → elem c (insert_name d ds) ≡ (bytes_eq d c || elem c ds)
unfolding elem insert_name
elem-insert_name c d [] = ground arith
elem-insert_name c d (e ∷ ds) = ground (arith, elem-insert_name c d ds)

named_by : (c : Bytes) (d : Dict Marker) → (lookup c d ≡ none) ⊎ (elem c (pending_markers d) ≡ true)
unfolding lookup pending_markers
named_by c [] = inl refl
named_by c ((k, m) ∷ d) = ground (arith, named_by c d, elem-insert_name c k (pending_markers d))

-- A settlement on a disk that refuses nothing leaves the receipt of every anchor in the calendar
-- on file, synced and once only, where every anchor had its receipt or a marker before.
pub settle_pending_receipt-settles :
    (io : Io) (f : Files)
    → IsFaultless io
    → IsBooked f
    → let f' = (settle_pending_receipt io f).1 in
      ((c : Bytes) → elem c f.calendar ≡ true → receipt_on_file c f'.lines ≡ true)
      × IsSingle (complete_lines f')
unfolding settle_pending_receipt
settle_pending_receipt-settles io f io_ok h = (
  λ c e. on_file c (after.1.owed c (ap (elem c) (settle_all-calendar io names f h) ∙ e)),
  after.1.single,
)
  where
    names : List Bytes
    names = pending_markers f.markers

    after : ((settle_all io names f).0 ≡ settled) × IsBooked (settle_all io names f).1
    after =
        let (calm, booked, later) = settle_pending_receipt-IsBooked io false f h in (calm, booked)

    on_file :
        (c : Bytes)
        → IsReceipted (settle_all io names f).1 c
        → receipt_on_file c (settle_all io names f).1.lines ≡ true
    on_file c (inl on) = on
    on_file c (inr (r, stands)) =
        absurd
          (no_marker (sym (settle_all-gone io names c f io_ok h (named_by c f.markers)) ∙ stands))
      where
        no_marker : ◌≡◌ {A = Option Marker} none (some (readable r)) → ⊥
        no_marker e = cc
