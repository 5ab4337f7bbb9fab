-- ===== src/Checkpoint/RoundTrip.antt =====
-- otsserver/calendar.py: `read_checkpoint` after `write_checkpoint`.
use mathlib.Core.Bool.{not, ◌&&◌}
use opentimestamps_server.Prelude.{
  ℕ, ◌^◌, ◌<◌, ◌≤◌, ◌≡◌, refl, ap, ◌∙◌, sym, Bool, true, false, some, List, [], ◌∷◌, ◌++◌, Bytes,
  map, length, append_assoc, append-nil, ltb, if◌then◌else◌, arith, ==-false,
}
use opentimestamps_server.Checkpoint.{
  is_space, is_ascii, is_digit, is_hex, all_chars, to_lower, split_from, split, int_from,
  bad_index?, bad_generation?, parse_fields, parse_text, checkpoint, OnDisk, read_checkpoint,
  decimal, checkpoint_text, write_checkpoint, after_rename, before_rename, Stop, refused, not_ascii,
}
use opentimestamps_server.Checkpoint.Digits.{int_from-decimal, digits-decimal, length-decimal}

abbrev is_word : ℕ → Bool
is_word c = not (is_space c)

and_parts : (a b : Bool) → (a && b) ≡ true → (a ≡ true) × (b ≡ true)
and_parts a b h = ground arith

not-true : (b : Bool) → not b ≡ true → b ≡ false
not-true b h = ground arith

all_chars-imp :
    (p q : ℕ → Bool) (s : Bytes)
    → ((c : ℕ) → p c ≡ true → q c ≡ true)
    → all_chars p s ≡ true
    → all_chars q s ≡ true
unfolding all_chars
all_chars-imp p q [] imp h = refl
all_chars-imp p q (c ∷ s) imp h = ground (arith, imp c, all_chars-imp p q s imp)

-- A run of other characters goes into the word that has begun.
split_from-word :
    (word s rest : Bytes)
    → all_chars is_word s ≡ true
    → split_from word (s ++ rest) ≡ split_from (word ++ s) rest
unfolding split_from all_chars
split_from-word word [] rest h = ap (λ w. split_from w rest) (sym (append-nil word))
split_from-word word (c ∷ s) rest h =
    rw (not-true (is_space c) (and_parts (is_word c) (all_chars is_word s) h).0) (
      split_from-word (word ++ c ∷ []) s rest (and_parts (is_word c) (all_chars is_word s) h).1
      ∙ ap (λ w. split_from w rest) (append_assoc word (c ∷ []) s))

-- A space ends the word that has begun.
split_from-space :
    (word rest : Bytes) (c : ℕ)
    → 0 < length word
    → is_space c ≡ true
    → split_from word (c ∷ rest) ≡ word ∷ split_from [] rest
unfolding split_from
split_from-space word rest c h e = rw e (rw (==-false (length word) 0 (omega arith)) refl)

split-checkpoint :
    (index generation : Bytes)
    → all_chars is_word index ≡ true
    → all_chars is_word generation ≡ true
    → 0 < length index
    → 0 < length generation
    → split (index ++ b' ' ∷ (generation ++ b'\n' ∷ [])) ≡ index ∷ generation ∷ []
unfolding split
split-checkpoint index generation wi wg li lg =
    split_from-word [] index (b' ' ∷ (generation ++ b'\n' ∷ [])) wi
    ∙ split_from-space index (generation ++ b'\n' ∷ []) b' ' li refl
    ∙ ap (λ z. index ∷ z)
        (split_from-word [] generation (b'\n' ∷ []) wg
          ∙ split_from-space generation [] b'\n' lg refl
          ∙ ap (λ z. generation ∷ z) (unfold split_from in refl))

all_ascii : (s : Bytes) → all_chars (λ c. ltb c 128) s ≡ is_ascii s
unfolding all_chars is_ascii
all_ascii [] = refl
all_ascii (c ∷ s) = ap (λ b. ltb c 128 && b) (all_ascii s)

is_ascii-append : (s t : Bytes) → is_ascii (s ++ t) ≡ (is_ascii s && is_ascii t)
unfolding is_ascii
is_ascii-append [] t = refl
is_ascii-append (c ∷ s) t = ground (arith, is_ascii-append s t)

lower_hex : (s : Bytes) → all_chars is_hex s ≡ true → map to_lower s ≡ s
unfolding all_chars
lower_hex [] h = refl
lower_hex (c ∷ s) h = ground (arith, lower_hex s)

ascii_digit : (c : ℕ) → is_digit c ≡ true → ltb c 128 ≡ true
ascii_digit c h = ground arith

ascii_hex : (c : ℕ) → is_hex c ≡ true → ltb c 128 ≡ true
ascii_hex c h = ground arith

word_digit : (c : ℕ) → is_digit c ≡ true → is_word c ≡ true
word_digit c h = ground arith

word_hex : (c : ℕ) → is_hex c ≡ true → is_word c ≡ true
word_hex c h = ground arith

ascii-checkpoint :
    (idx : ℕ) (generation : Bytes)
    → all_chars is_hex generation ≡ true
    → is_ascii (checkpoint_text idx generation) ≡ true
unfolding checkpoint_text
ascii-checkpoint idx generation hex =
    rw (is_ascii-append (decimal idx) (b' ' ∷ (generation ++ b'\n' ∷ []))) (
      rw
        (
          sym (all_ascii (decimal idx)),
          all_chars-imp is_digit (λ c. ltb c 128) (decimal idx) ascii_digit (digits-decimal idx),
        )
        (unfold is_ascii in
          rw (is_ascii-append generation (b'\n' ∷ [])) (
            rw
              (
                sym (all_ascii generation),
                all_chars-imp is_hex (λ c. ltb c 128) generation ascii_hex hex,
              )
              refl)))

parse_text-split :
    (raw : Bytes) (fields : List Bytes)
    → is_ascii raw ≡ true
    → split raw ≡ fields
    → parse_text raw ≡ parse_fields fields
unfolding parse_text
parse_text-split raw fields ascii e =
    ap (λ b. if b then parse_fields (split raw) else refused not_ascii) ascii ∙ ap parse_fields e

parse_fields-two :
    (index generation : Bytes)
    → bad_index? index ≡ false
    → bad_generation? (map to_lower generation) ≡ false
    → parse_fields (index ∷ generation ∷ [])
      ≡ checkpoint (record { idx = int_from 0 index; generation = some (map to_lower generation) })
unfolding parse_fields
parse_fields-two index generation good_index good_generation =
    rw good_index (rw good_generation refl)

good_index :
    (s : Bytes) → 0 < length s → length s ≤ 20 → all_chars is_digit s ≡ true → bad_index? s ≡ false
good_index s lo hi h = ground arith

good_generation :
    (s : Bytes) → length s ≡ 32 → all_chars is_hex s ≡ true → bad_generation? s ≡ false
good_generation s len h = ground arith

-- A checkpoint that `write_checkpoint` wrote in full, of an index below 10 ^ 20 and a generation of
-- 32 lower-case hex characters, reads back as that index and that generation; one that stopped
-- before its rename leaves the file that was there.
pub read_checkpoint-write_checkpoint :
    (stop : Stop) (old : OnDisk) (idx : ℕ) (generation : Bytes)
    → idx < 10 ^ 20
    → length generation ≡ 32
    → all_chars is_hex generation ≡ true
    → read_checkpoint (write_checkpoint stop old idx generation) ≡ elim stop [
      | before_rename ↦ read_checkpoint old
      | after_rename ↦ checkpoint (record { idx = idx; generation = some generation })
    ]
read_checkpoint-write_checkpoint before_rename old idx generation fits len hex =
    unfold write_checkpoint in refl
read_checkpoint-write_checkpoint after_rename old idx generation fits len hex =
    unfold read_checkpoint write_checkpoint checkpoint_text in
    (parse_text-split (checkpoint_text idx generation) (decimal idx ∷ generation ∷ [])
        (ascii-checkpoint idx generation hex)
        (split-checkpoint (decimal idx) generation
          (all_chars-imp is_digit is_word (decimal idx) word_digit (digits-decimal idx))
          (all_chars-imp is_hex is_word generation word_hex hex) (length-decimal idx fits).0
          (omega arith))
      ∙ parse_fields-two (decimal idx) generation
          (good_index (decimal idx) (length-decimal idx fits).0 (length-decimal idx fits).1
            (digits-decimal idx))
          (rw (lower_hex generation hex) (good_generation generation len hex))
      ∙ ap (λ g. checkpoint (record { idx = int_from 0 (decimal idx); generation = some g }))
          (lower_hex generation hex)
      ∙ ap (λ n. checkpoint (record { idx = n; generation = some generation }))
          (int_from-decimal idx))
