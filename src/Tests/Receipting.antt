-- ===== src/Tests/Receipting.antt =====
-- An anchor whose receipt the disk refused, and the next one.
use opentimestamps_server.Prelude.{
  ◌≡◌, ◌∙◌, refl, sym, ap, true, Option, none, some, [], ◌∷◌, Bytes, bytes_eq, bytes_eq_iff, codes,
  elem, Bool-cases, inl, inr, arith,
}
use opentimestamps_server.Prelude.Int.{pos}
use opentimestamps_server.Prelude.Dict.{lookup}
use opentimestamps_server.Receipts.{
  Receipt, Marker, readable, unreadable, Files, synced, interrupted, placed, Io, settled,
  power_loss, receipt_on_file, complete_lines, settle_pending_receipt,
}
use opentimestamps_server.Receipts.Books.{IsBooked, IsSingle}
use opentimestamps_server.Receipts.Billing.{settle_pending_receipt-IsBooked}
use opentimestamps_server.Receipts.Settlement.{IsFaultless, settle_pending_receipt-settles}

abbrev pub owed_receipt : Receipt
owed_receipt = record {
  txid = codes "old";
  fee_sats = pos 200;
  commitments = 1;
  confirmed_height = 90;
  confirmed_at = 5;
  records = 2;
}

-- The receipt of "old" was interrupted: its marker stands.
abbrev pub files : Files
files = record {
  lines = [];
  unsynced_lines = [];
  torn = true;
  markers = (codes "old", readable owed_receipt) ∷ [];
  set_aside = 0;
  calendar = codes "old" ∷ [];
}

-- The only marker.
marker_at :
    (c : Bytes)
    → bytes_eq (codes "old") c ≡ true
    → lookup c files.markers ≡ some (readable owed_receipt)
unfolding lookup
marker_at c same = rw same refl

held :
    (c : Bytes)
    → elem c files.calendar ≡ true
    → lookup c files.markers ≡ some (readable owed_receipt)
unfolding elem
held c e = marker_at c (ground (arith, e))

abbrev txid_in : Option Marker → Bytes
txid_in (some (readable r)) = r.txid
txid_in (some unreadable) = []
txid_in none = []

names : (c : Bytes) (r : Receipt) → lookup c files.markers ≡ some (readable r) → r.txid ≡ c
unfolding lookup
names c r e = elim (Bool-cases (bytes_eq (codes "old") c)) [
  | inl same ↦ sym (ap txid_in (sym (marker_at c same) ∙ e)) ∙ (bytes_eq_iff (codes "old") c).0 same
  | inr other ↦ absurd (nothing (rw other at e))
]
  where
    nothing : ◌≡◌ {A = Option Marker} none (some (readable r)) → ⊥
    nothing e = cc

files-IsBooked : IsBooked files
unfolding elem lookup receipt_on_file
files-IsBooked = record {
  owed = λ c e. inr (owed_receipt, held c e);
  earned = λ c e. cc;
  single = tt;
  named = names;
}

abbrev pub good_disk : Io
good_disk = record {
  appends = λ c. synced;
  syncs = λ c. true;
  unlinks = λ c. true;
  renames = λ c. true;
  places = λ c. placed;
  saves = λ c. true;
}

abbrev pub full_disk : Io
full_disk = record good_disk { appends = λ c. interrupted }

settle_pending_receipt-IsBooked_example :
    let out = settle_pending_receipt full_disk files in
    (out.0 ≡ settled) × IsBooked out.1 × IsBooked (power_loss true out.1)
settle_pending_receipt-IsBooked_example =
    settle_pending_receipt-IsBooked full_disk true files files-IsBooked

good_disk-IsFaultless : IsFaultless good_disk
good_disk-IsFaultless = record {
  appends = λ c. refl;
  syncs = λ c. refl;
  unlinks = λ c. refl;
  renames = λ c. refl;
}

settle_pending_receipt-settles_example :
    let f' = (settle_pending_receipt good_disk files).1 in
    ((c : Bytes) → elem c files.calendar ≡ true → receipt_on_file c f'.lines ≡ true)
    × IsSingle (complete_lines f')
settle_pending_receipt-settles_example =
    settle_pending_receipt-settles good_disk files good_disk-IsFaultless files-IsBooked
