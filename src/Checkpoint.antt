-- ===== src/Checkpoint.antt =====
-- otsserver/calendar.py: `read_checkpoint` and `write_checkpoint`, the file journal.known-good.
-- A text is its bytes; the errors say which check refused the file.
pub mod Digits
pub mod RoundTrip
pub mod Refusals
use Prim.Native.Nat.{zero, suc}
use mathlib.Core.Bool.{not, ◌&&◌, ◌||◌}
use mathlib.Core.Logic.{dite}
use mathlib.Core.WellFounded.{Acc}
use opentimestamps_server.Prelude.{
  ℕ, ◌+◌, ◌-◌, ◌*◌, ◌/◌, ◌%◌, ◌<◌, Bool, true, false, Option, none, some, List, [], ◌∷◌, ◌++◌, map,
  Bytes, length, ltb, leb, ◌==◌, if◌then◌else◌, dec_lt, arith,
}
use opentimestamps_server.Prelude.Wf.{lt_wf}

-- The whitespace of `str.split()` among the ASCII characters.
abbrev pub is_space : ℕ → Bool
is_space c = (leb 9 c && leb c 13) || (leb 28 c && leb c 32)

-- `text.split()`: the runs of other characters; `word` is the run that has begun.
split_from : Bytes → Bytes → List Bytes
split_from word [] = if length word == 0 then [] else word ∷ []
split_from word (c ∷ s) =
    let here = split_from [] s in
    let on = split_from (word ++ c ∷ []) s in
    if is_space c then (if length word == 0 then here else word ∷ here) else on

unfoldable pub split : Bytes → List Bytes
unfolding split_from
split text = split_from [] text

-- `raw.decode('ascii')` succeeds.
unfoldable pub is_ascii : Bytes → Bool
is_ascii [] = true
is_ascii (c ∷ s) = ltb c 128 && is_ascii s

abbrev pub is_digit : ℕ → Bool
is_digit c = leb b'0' c && leb c b'9'

-- `c in '0123456789abcdef'`
abbrev pub is_hex : ℕ → Bool
is_hex c = is_digit c || (leb b'a' c && leb c b'f')

-- `not any(...)`: every character passes the test.
unfoldable pub all_chars : (ℕ → Bool) → Bytes → Bool
all_chars test [] = true
all_chars test (c ∷ s) = test c && all_chars test s

-- `str.lower()` of an ASCII character.
abbrev pub to_lower : ℕ → ℕ
to_lower c = if leb b'A' c && leb c b'Z' then c + 32 else c

-- `int(parts[0])` of decimal digits.
unfoldable pub int_from : ℕ → Bytes → ℕ
int_from n [] = n
int_from n (c ∷ s) = int_from (n * 10 + (c - b'0')) s

-- What the checkpoint says: a journal index, and the generation of its database if it names one.
pub record Checkpoint : Type 0 where
  pub idx : ℕ
  pub generation : Option Bytes

-- The refusals; each but the last is a `ValueError`.
pub data Refusal : Type 0 where
  not_ascii wrong_fields bad_index bad_generation unreadable : Refusal

pub data Parsed : Type 0 where
  absent : Parsed
  refused : Refusal → Parsed
  checkpoint : Checkpoint → Parsed

abbrev pub bad_index? : Bytes → Bool
bad_index? field = length field == 0 || ltb 20 (length field) || not (all_chars is_digit field)

abbrev pub bad_generation? : Bytes → Bool
bad_generation? field = not (length field == 32) || not (all_chars is_hex field)

unfoldable pub parse_fields : List Bytes → Parsed
parse_fields (index ∷ []) =
    if bad_index? index
    then refused bad_index
    else checkpoint (record { idx = int_from 0 index; generation = none })
parse_fields (index ∷ field ∷ []) =
    if bad_index? index
    then refused bad_index
    else if bad_generation? (map to_lower field)
    then refused bad_generation
    else checkpoint (record { idx = int_from 0 index; generation = some (map to_lower field) })
parse_fields _ = refused wrong_fields

unfoldable pub parse_text : Bytes → Parsed
unfolding parse_fields split
parse_text raw = if is_ascii raw then parse_fields (split raw) else refused not_ascii

-- The file as `open` and `read` find it.
pub data OnDisk : Type 0 where
  missing : OnDisk
  os_error : OnDisk
  content : Bytes → OnDisk

-- `read_checkpoint`
unfoldable pub read_checkpoint : OnDisk → Parsed
unfolding parse_text
read_checkpoint missing = absent
read_checkpoint os_error = refused unreadable
read_checkpoint (content raw) = parse_text raw

tenth_lt : {n : ℕ} → 9 < n → n / 10 < n
tenth_lt h = omega arith

-- `'%d' % n`: the digits of `n`, the last ones collected in `out`.
decimal_acc : (n : ℕ) → Acc ◌<◌ n → Bytes → Bytes
decimal_acc n (Acc.intro _ smaller) out =
    dite (dec_lt 9 n)
      (λ h. decimal_acc (n / 10) (smaller (n / 10) (tenth_lt h)) ((b'0' + n % 10) ∷ out))
      (λ _. (b'0' + n) ∷ out)

unfoldable pub decimal : ℕ → Bytes
unfolding decimal_acc tenth_lt lt_wf dec_lt
decimal n = decimal_acc n (lt_wf.apply n) []

-- What `write_checkpoint` puts into the file, by a rename that lands whole or not at all:
-- `'%d %s\n' % (idx, generation)`.
unfoldable pub checkpoint_text : ℕ → Bytes → Bytes
unfolding decimal
checkpoint_text idx generation = decimal idx ++ b' ' ∷ (generation ++ b'\n' ∷ [])

-- The disk on the way through `write_checkpoint`: the rename happens once the temporary file is
-- whole and synced, so a stop before it leaves the old file.
pub data Stop : Type 0 where
  before_rename after_rename : Stop

unfoldable pub write_checkpoint : Stop → OnDisk → ℕ → Bytes → OnDisk
unfolding checkpoint_text
write_checkpoint before_rename old idx generation = old
write_checkpoint after_rename old idx generation = content (checkpoint_text idx generation)
