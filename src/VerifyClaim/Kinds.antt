-- ===== src/VerifyClaim/Kinds.antt =====
-- ops/verify_claim.py: what `_read_attestation` reads of the format's payloads.
use Prim.Native.Nat.{zero, suc}
use mathlib.Core.Bool.{◌&&◌, not}
use opentimestamps_server.Prelude.{
  ◌^◌, ◌<◌, ℕ, ◌<◌, ◌≢◌, Bool, true, false, ◌||◌, none, some, [], ◌∷◌, Bytes, bytes_eq,
  bytes_eq_iff, leb, ◌==◌, ◌≡◌, refl, sym, ap, ◌∙◌, arith, Bool-cases, inl, inr, ℕ_discrete,
}
use opentimestamps_server.Prelude.Distinct.{has}
use opentimestamps_server.Checkpoint.{all_chars}
use opentimestamps_server.VerifyClaim.{
  Kind, pending, bitcoin, unknown, uri_chars, kind_of, read_varuint,
}
use opentimestamps_server.VerifyClaim.Format.{
  IsBlockTag, long_varuint, IsUriByte, IsUri, IsHeight, IsKind, calendar_tag, bitcoin_block_tag,
  litecoin_block_tag, ethereum_block_tag,
}
use opentimestamps_server.VerifyClaim.Varuints.{read_varbytes-varbytes, varuint_from-long_varuint}

-- A test of every number below a bound.
unfoldable all_below : ℕ → (ℕ → Bool) → Bool
all_below zero test = true
all_below (suc n) test = test n && all_below n test

all_below-holds :
    (n : ℕ) (test : ℕ → Bool) (b : ℕ) → all_below n test ≡ true → b < n → test b ≡ true
unfolding all_below
all_below-holds zero test b all lt = absurd (omega arith)
all_below-holds (suc n) test b all lt = elim (ℕ_discrete b n) [
  | yes here ↦ rw here (ground (arith, all))
  | no lower ↦ all_below-holds n test b (ground (arith, all)) (omega arith)
]

abbrev uri_byte : ℕ → Bool
uri_byte b =
    (leb 45 b && leb b 58) || ((leb 65 b && leb b 90) || ((b == 95) || (leb 97 b && leb b 122)))

abbrev allowed : ℕ → Bool
allowed b = has (λ x y. x == y) b uri_chars

uri_bytes_allowed : all_below 128 (λ b. not (uri_byte b) || allowed b) ≡ true
unfolding all_below has
uri_bytes_allowed = refl

uri_byte-IsUriByte : (b : ℕ) → IsUriByte b → (uri_byte b ≡ true) × (b < 128)
uri_byte-IsUriByte b (inl (from, to)) = (ground (arith, from, to), omega arith)
uri_byte-IsUriByte b (inr (inl (from, to))) = (ground (arith, from, to), omega arith)
uri_byte-IsUriByte b (inr (inr (inl here))) = (ground (arith, here), omega arith)
uri_byte-IsUriByte b (inr (inr (inr (from, to)))) = (ground (arith, from, to), omega arith)

allowed-IsUriByte : (b : ℕ) → IsUriByte b → allowed b ≡ true
allowed-IsUriByte b h =
    let (told, lt) = uri_byte-IsUriByte b h in
    implied (uri_byte b) (allowed b) told
      (all_below-holds 128 (λ b. not (uri_byte b) || allowed b) b uri_bytes_allowed lt)
  where
    implied : (x y : Bool) → x ≡ true → (not x || y) ≡ true → y ≡ true
    implied x y e h = ground (arith, e, h)

all_chars-IsUri : (uri : Bytes) → IsUri uri → all_chars allowed uri ≡ true
unfolding all_chars
all_chars-IsUri [] h = refl
all_chars-IsUri (b ∷ uri) h = rw (allowed-IsUriByte b h.0) (all_chars-IsUri uri h.1)

read_varuint-IsHeight :
    (height : ℕ) (payload : Bytes)
    → IsHeight height payload
    → read_varuint payload ≡ some (height, [])
read_varuint-IsHeight height payload (lt, printed) =
    ap read_varuint printed
    ∙ varuint_from-long_varuint 9 0 0 height [] lt
    ∙ ap (λ v. some (v, [])) (omega arith)

other_tag : (tag known : Bytes) → tag ≢ known → bytes_eq tag known ≡ false
other_tag tag known other = elim (Bool-cases (bytes_eq tag known)) [
  | inl same ↦ absurd (other ((bytes_eq_iff tag known).0 same))
  | inr differs ↦ differs
]

pub kind_of-IsKind :
    (tag payload : Bytes) (kind : Kind) → IsKind tag payload kind → kind_of tag payload ≡ some kind
unfolding kind_of has bytes_eq
kind_of-IsKind tag payload (pending uri) (tagged, short, chars, printed) = rw tagged (
    rw printed (
      rw (read_varbytes-varbytes 1000 0 uri [] short (omega arith) (omega arith))
        (rw (all_chars-IsUri uri chars) refl)))
kind_of-IsKind tag payload (bitcoin height) (tagged, high) =
    rw tagged (rw (read_varuint-IsHeight height payload high) refl)
kind_of-IsKind tag payload (unknown t) (same, inl (a, b, c, d)) =
    rw (other_tag tag calendar_tag a) (
      rw (other_tag tag bitcoin_block_tag b) (
        rw (other_tag tag litecoin_block_tag c)
          (rw (other_tag tag ethereum_block_tag d) (ap (λ z. some (unknown z)) (sym same)))))
kind_of-IsKind tag payload (unknown t) (same, inr (inl tagged, height, high)) =
    rw same (rw tagged (rw (read_varuint-IsHeight height payload high) refl))
kind_of-IsKind tag payload (unknown t) (same, inr (inr tagged, height, high)) =
    rw same (rw tagged (rw (read_varuint-IsHeight height payload high) refl))

-- A byte behind the height of a block is not let through.
pub kind_of_trailing :
    (tag : Bytes) (height b : ℕ) (more : Bytes)
    → IsBlockTag tag
    → height < 128 ^ 10
    → kind_of tag (long_varuint 10 height (b ∷ more)) ≡ none
unfolding kind_of has bytes_eq
kind_of_trailing tag height b more (inl tagged) lt =
    rw tagged (rw (varuint_from-long_varuint 9 0 0 height (b ∷ more) lt) refl)
kind_of_trailing tag height b more (inr (inl tagged)) lt =
    rw tagged (rw (varuint_from-long_varuint 9 0 0 height (b ∷ more) lt) refl)
kind_of_trailing tag height b more (inr (inr tagged)) lt =
    rw tagged (rw (varuint_from-long_varuint 9 0 0 height (b ∷ more) lt) refl)
