-- ===== src/Rpc.antt =====
-- otsserver/rpc.py: the handlers of the HTTP server, from a request to its reply.
-- A header is a pair of texts; a text is its bytes (the server decodes a request as Latin-1).
pub mod Digest
pub mod Hex
use mathlib.Core.Bool.{not, ◌&&◌, ◌||◌}
use opentimestamps_server.Prelude.{
  ℕ, ◌+◌, ◌-◌, ◌*◌, Bool, true, false, Option, none, some, List, [], ◌∷◌, ◌++◌, Bytes, codes,
  bytes_eq, starts_with, length, take, drop, ltb, leb, ◌==◌, if◌then◌else◌,
}
use opentimestamps_server.Checkpoint.{decimal, is_digit, is_space, int_from}
use opentimestamps_server.Stamper.Pending.{Reason, pending_confirmation, timestamped_by}

-- `MAX_DIGEST_LENGTH`
abbrev pub max_digest_length : ℕ
max_digest_length = 64

pub record Reply : Type 0 where
  pub status : ℕ
  pub headers : List (Bytes × Bytes)
  pub body : Bytes

-- What `int` gives: a number, or the negative of one.
pub data Signed : Type 0 where
  plus minus : ℕ → Signed

-- The whitespace of `int` among the Latin-1 characters.
abbrev pub is_space_latin : ℕ → Bool
is_space_latin c = is_space c || c == 133 || c == 160

unfoldable pub lstrip : Bytes → Bytes
lstrip [] = []
lstrip (c ∷ s) = let rest = lstrip s in if is_space_latin c then rest else c ∷ s

unfoldable pub rstrip : Bytes → Bytes
rstrip [] = []
rstrip (c ∷ s) =
    let rest = rstrip s in if is_space_latin c && length rest == 0 then [] else c ∷ rest

-- Decimal digits with single underscores between them; `after` says that a digit came last.
unfoldable pub digits_from : ℕ → Bool → Bytes → Option ℕ
digits_from n after [] = if after then some n else none
digits_from n after (c ∷ s) =
    let more = digits_from (n * 10 + (c - b'0')) true s in
    let gap = digits_from n false s in
    if is_digit c then more else if c == b'_' && after then gap else none

abbrev pub signed : (ℕ → Signed) → Option ℕ → Option Signed
signed sign none = none
signed sign (some n) = some (sign n)

abbrev pub int_signed : Bytes → Option Signed
int_signed [] = none
int_signed (c ∷ s) =
    if c == b'-'
    then signed minus (digits_from 0 false s)
    else if c == b'+'
    then signed plus (digits_from 0 false s)
    else signed plus (digits_from 0 false (c ∷ s))

-- `int(content_length)`: `none` is the `TypeError` of a missing header or the `ValueError`.
unfoldable pub int_header : Option Bytes → Option Signed
unfolding lstrip rstrip digits_from
int_header none = none
int_header (some text) = int_signed (rstrip (lstrip text))

-- A POST: the header, and the bytes that arrive before the peer stops sending.
pub record Post : Type 0 where
  pub content_length : Option Bytes
  pub sent : Bytes

abbrev pub plain : ℕ → Bytes → Reply
plain status body = record {
  status = status;
  headers = (codes "Content-Type", codes "text/plain") ∷ [];
  body = body;
}

abbrev pub unavailable : Reply
unavailable = record {
  status = 503;
  headers = (codes "Content-Type", codes "text/plain") ∷ (codes "Retry-After", codes "5") ∷ [];
  body = codes "aggregator unavailable";
}

-- The reply that carries a serialized timestamp.
abbrev pub timestamp_reply : Bytes → Reply
timestamp_reply serialized = record {
  status = 200;
  headers =
      (codes "Content-Type", codes "application/octet-stream")
      ∷ (codes "Content-Length", decimal (length serialized))
      ∷ [];
  body = serialized;
}

-- `aggregator.submit(digest, counted=counted)` on the state that the handlers share, with the
-- serialized timestamp; `none` is `AggregatorUnavailable`.
abbrev pub Submit {ℓ} : Type ℓ → Type ℓ
Submit S = Bytes → Bool → S → Option Bytes × S

abbrev pub submitted {ℓ} : {S : Type ℓ} → Option Bytes × S → Reply × S
submitted (none, s) = (unavailable, s)
submitted (some serialized, s) = (timestamp_reply serialized, s)

-- The body of the declared length, once that length is known.
abbrev pub read_digest {ℓ} : {S : Type ℓ} → Submit S → Bool → Bytes → Option Signed → S → Reply × S
read_digest submit counted sent none s = (plain 400 (codes "invalid Content-Length"), s)
read_digest submit counted sent (some (minus n)) s = (plain 400 (codes "invalid digest length"), s)
read_digest submit counted sent (some (plus n)) s =
    if ltb n 1
    then (plain 400 (codes "invalid digest length"), s)
    else if ltb max_digest_length n
    then (plain 400 (codes "digest too long"), s)
    else if not (length (take n sent) == n)
    then (plain 400 (codes "body shorter than Content-Length"), s)
    else submitted (submit (take n sent) counted s)

unfoldable pub post_digest {ℓ} : {S : Type ℓ} → Submit S → Bool → Post → S → Reply × S
unfolding int_header
post_digest submit counted post s =
    read_digest submit counted post.sent (int_header post.content_length) s

abbrev pub not_found : Bytes → Reply
not_found body = record {
  status = 404;
  headers =
      (codes "Content-Type", codes "text/plain")
      ∷ (codes "Cache-Control", codes "public, max-age=3600")
      ∷ [];
  body = body;
}

-- `do_POST`; `lane` is `operator_lane_enabled()`.
unfoldable pub do_post {ℓ} : {S : Type ℓ} → Submit S → Bool → Bytes → Post → S → Reply × S
unfolding post_digest
do_post submit lane path post s =
    if bytes_eq path (codes "/digest")
    then post_digest submit true post s
    else if bytes_eq path (codes "/operator/digest") && lane
    then post_digest submit false post s
    else (not_found (codes "not found"), s)

-- `get_tip`; `none` is no unconfirmed transaction, `some none` a tip without a message.
unfoldable pub get_tip : Option (Option Bytes) → Reply
get_tip none = record {
  status = 404;
  headers = (codes "Content-Type", codes "text/plain") ∷ [];
  body = [];
}
get_tip (some (some msg)) = record {
  status = 200;
  headers =
      (codes "Content-Type", codes "application/octet-stream")
      ∷ (codes "Cache-Control", codes "public, max-age=10")
      ∷ [];
  body = msg;
}
get_tip (some none) = record {
  status = 204;
  headers = (codes "Cache-Control", codes "public, max-age=10") ∷ [];
  body = [];
}

-- The value of a hexadecimal digit, of either case.
unfoldable pub nibble : ℕ → Option ℕ
nibble c =
    if is_digit c
    then some (c - b'0')
    else if leb b'a' c && leb c b'f'
    then some (c - b'a' + 10)
    else if leb b'A' c && leb c b'F'
    then some (c - b'A' + 10)
    else none

abbrev pub pair_with : Option ℕ → Option ℕ → Option Bytes → Option Bytes
pair_with (some h) (some l) (some rest) = some ((h * 16 + l) ∷ rest)
pair_with (some h) (some l) none = none
pair_with (some h) none rest = none
pair_with none l rest = none

-- `binascii.unhexlify` of an ASCII text; `none` is `binascii.Error`.
unfoldable pub unhexlify : Bytes → Option Bytes
unfolding nibble
unhexlify [] = some []
unhexlify (c ∷ []) = none
unhexlify (c ∷ d ∷ s) = pair_with (nibble c) (nibble d) (unhexlify s)

-- `calendar.stamper.is_pending(commitment)`, as text.
abbrev pub reason_text : (Bytes → Bytes) → Reason → Bytes
reason_text b2lx pending_confirmation = codes "Pending confirmation in Bitcoin blockchain"
reason_text b2lx (timestamped_by txid n) =
    codes "Timestamped by transaction "
    ++ b2lx txid
    ++ codes "; waiting for "
    ++ decimal n
    ++ codes " confirmations"

-- The calendar as the handler asks it: the serialized timestamp of a commitment (`none` is the
-- `KeyError`), the stamper's reason, and the display form of a transaction id.
pub record Asked : Type 0 where
  pub timestamps : Bytes → Option Bytes
  pub is_pending : Bytes → Option Reason
  pub b2lx : Bytes → Bytes

abbrev pub missing : Asked → Option Reason → Reply
missing a none = record {
  status = 404;
  headers =
      (codes "Content-Type", codes "text/plain")
      ∷ (codes "Cache-Control", codes "public, max-age=60")
      ∷ [];
  body = codes "Not found";
}
missing a (some reason) = record {
  status = 404;
  headers =
      (codes "Content-Type", codes "text/plain")
      ∷ (codes "Cache-Control", codes "public, max-age=60")
      ∷ [];
  body = reason_text a.b2lx reason;
}

abbrev pub served : Asked → Bytes → Option Bytes → Reply
served a commitment none = missing a (a.is_pending commitment)
served a commitment (some serialized) = record {
  status = 200;
  headers =
      (codes "Cache-Control", codes "public, max-age=31536000")
      ∷ (codes "Content-Type", codes "application/octet-stream")
      ∷ (codes "Content-Length", decimal (length serialized))
      ∷ [];
  body = serialized;
}

abbrev pub asked : Asked → Option Bytes → Reply
asked a none = record {
  status = 400;
  headers =
      (codes "Content-Type", codes "text/plain")
      ∷ (codes "Cache-Control", codes "public, max-age=31536000")
      ∷ [];
  body = codes "commitment must be hex-encoded bytes";
}
asked a (some commitment) = served a commitment (a.timestamps commitment)

-- `get_timestamp`, on an ASCII path.
unfoldable pub get_timestamp : Asked → Bytes → Reply
unfolding unhexlify
get_timestamp a path = asked a (unhexlify (drop (length (codes "/timestamp/")) path))

-- `do_GET`; `status` is the reply of `get_status`.
unfoldable pub do_get : Asked → Reply → Option (Option Bytes) → Bytes → Reply
unfolding get_timestamp get_tip
do_get a status tip path =
    if bytes_eq path (codes "/")
    then status
    else if starts_with path (codes "/timestamp/")
    then get_timestamp a path
    else if bytes_eq path (codes "/tip")
    then get_tip tip
    else not_found (codes "Not found")
