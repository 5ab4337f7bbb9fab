-- ===== src/Journal/Entries.antt =====
-- otsserver/calendar.py: `Journal` as the list of its whole entries, each of `commitment_size`
-- bytes.
use opentimestamps_server.Prelude
use opentimestamps_server.Prelude.{
  ℕ, zero, suc, ◌+◌, ◌-◌, ◌*◌, ◌/◌, ◌%◌, ◌≤◌, ◌<◌, ◌≡◌, refl, ap, ◌∙◌, sym, List, [], ◌∷◌, ◌++◌,
  Option, none, some, Bytes, length, take, drop, get_elem?, pread, take-append_le, drop-append_le,
  drop-append_ge, take_all, length-take, length-drop, length-append, drop-drop, arith, dec_lt,
  ==_iff, ==-false, ◌==◌, if◌then◌else◌,
}
use mathlib.Core.Option
use opentimestamps_server.Journal.{commitment_size, strip, get_item}

-- The first `n` entries of the file.
chunks : ℕ → Bytes → List Bytes
chunks zero file = []
chunks (suc n) file = take commitment_size file ∷ chunks n (drop commitment_size file)

-- The abstract journal: the whole entries in the order of their indexes.
unfoldable pub entries : Bytes → List Bytes
unfolding chunks
entries file = chunks (length file / commitment_size) file

length-chunks : (n : ℕ) (file : Bytes) → length (chunks n file) ≡ n
unfolding chunks
length-chunks zero file = refl
length-chunks (suc n) file = ap suc (length-chunks n (drop commitment_size file))

pub length-entries : (file : Bytes) → length (entries file) ≡ length file / commitment_size
unfolding entries
length-entries file = length-chunks (length file / commitment_size) file

get_elem?-chunks :
    (n : ℕ) (file : Bytes) (i : ℕ)
    → i < n
    → get_elem? (chunks n file) i ≡ some (pread file commitment_size (i * commitment_size))
unfolding chunks
get_elem?-chunks zero file i h = absurd (omega arith)
get_elem?-chunks (suc n) file zero h = refl
get_elem?-chunks (suc n) file (suc i) h =
    get_elem?-chunks n (drop commitment_size file) i (omega arith)
    ∙ ap (λ z. some (take commitment_size z)) (drop-drop (i * commitment_size) commitment_size file)
    ∙ ap (λ z. some (pread file commitment_size z)) next
  where
    next : commitment_size + i * commitment_size ≡ suc i * commitment_size
    next = omega arith

get_elem?-past {ℓ} : {A : Type ℓ} (xs : List A) (i : ℕ) → length xs ≤ i → get_elem? xs i ≡ none
get_elem?-past [] i h = refl
get_elem?-past (x ∷ xs) zero h = absurd (omega arith)
get_elem?-past (x ∷ xs) (suc i) h = get_elem?-past xs i (omega arith)

-- `Journal.__getitem__` reads the abstract journal: an entry with its null HMAC stripped off, and
-- the `KeyError` exactly past the last whole entry.
pub get_item-entries :
    (file : Bytes) (idx : ℕ) → get_item file idx ≡ Option.map strip (get_elem? (entries file) idx)
unfolding get_item entries
get_item-entries file idx = elim (dec_lt idx (length file / commitment_size)) [
  | yes h ↦ rw (get_elem?-chunks (length file / commitment_size) file idx h) (
      rw
        ((==_iff (length (pread file commitment_size (idx * commitment_size))) commitment_size).1
          (omega (arith, read_length)))
        refl)
  | no h ↦ rw (get_elem?-past (entries file) idx (omega (arith, length-entries file))) (
      rw
        (==-false (length (pread file commitment_size (idx * commitment_size))) commitment_size
          (omega (arith, read_length)))
        refl)
]
  where
    read_length :
        length (pread file commitment_size (idx * commitment_size))
        ≡ Prelude.min commitment_size (length file - idx * commitment_size)
    read_length = omega (
      arith,
      length-take commitment_size (drop (idx * commitment_size) file),
      length-drop (idx * commitment_size) file,
    )

chunks-append :
    (n : ℕ) (file more : Bytes)
    → n * commitment_size ≤ length file
    → chunks n (file ++ more) ≡ chunks n file
unfolding chunks
chunks-append zero file more h = refl
chunks-append (suc n) file more h =
    ap (λ z. z ∷ chunks n (drop commitment_size (file ++ more)))
      (take-append_le commitment_size file more (omega arith))
    ∙ ap (λ z. take commitment_size file ∷ chunks n z)
        (drop-append_le commitment_size file more (omega arith))
    ∙ ap (λ z. take commitment_size file ∷ z)
        (chunks-append n (drop commitment_size file) more
          (omega (arith, length-drop commitment_size file)))

chunks-snoc :
    (n : ℕ) (file c : Bytes)
    → length file ≡ n * commitment_size
    → length c ≡ commitment_size
    → chunks (suc n) (file ++ c) ≡ chunks n file ++ c ∷ []
unfolding chunks
chunks-snoc zero [] c h e = ap (λ z. z ∷ []) (take_all commitment_size c (omega arith))
chunks-snoc zero (x ∷ file) c h e = absurd (omega arith)
chunks-snoc (suc n) file c h e =
    ap (λ z. z ∷ chunks (suc n) (drop commitment_size (file ++ c)))
      (take-append_le commitment_size file c (omega arith))
    ∙ ap (λ z. take commitment_size file ∷ chunks (suc n) z)
        (drop-append_le commitment_size file c (omega arith))
    ∙ ap (λ z. take commitment_size file ∷ z)
        (chunks-snoc n (drop commitment_size file) c
          (omega (arith, length-drop commitment_size file)) e)

-- One more whole entry at the end of a journal of whole entries.
pub entries-snoc :
    (file c : Bytes)
    → length file % commitment_size ≡ 0
    → length c ≡ commitment_size
    → entries (file ++ c) ≡ entries file ++ c ∷ []
unfolding entries
entries-snoc file c whole e =
    ap (λ n. chunks n (file ++ c)) more
    ∙ chunks-snoc (length file / commitment_size) file c (omega arith) e
  where
    more : length (file ++ c) / commitment_size ≡ suc (length file / commitment_size)
    more = omega (arith, length-append file c)

-- Bytes behind the last whole entry that do not fill one are no entry.
pub entries-partial :
    (file more : Bytes)
    → length file % commitment_size + length more < commitment_size
    → entries (file ++ more) ≡ entries file
unfolding entries
entries-partial file more h =
    ap (λ n. chunks n (file ++ more)) same
    ∙ chunks-append (length file / commitment_size) file more (omega arith)
  where
    same : length (file ++ more) / commitment_size ≡ length file / commitment_size
    same = omega (arith, length-append file more)
