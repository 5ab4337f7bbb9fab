-- ===== src/Submission/Length.antt =====
-- otsserver/calendar.py: the sizes of the commitments of `Calendar.submit`.
use mathlib.Core.List.{reverse}
use opentimestamps_server.Prelude.{
  ℕ, ◌≡◌, refl, ◌<◌, ◌^◌, ◌/◌, ◌%◌, [], ◌∷◌, Option, none, some, List, Bytes, ◌++◌, length, take,
  length-append, length-take, arith,
}
use opentimestamps_server.Counts.{pack}
use opentimestamps_server.Counts.Slots.{length-pack}
use opentimestamps_server.Journal.{JournalWriter, Disk, synced, commitment_size, hmac_size}
use opentimestamps_server.Journal.Writes.{IsWhole, IsOneMore, submit_appends}
use opentimestamps_server.Keys.{derive_key_for_idx}
use opentimestamps_server.Stamper.{KnownBlock}
use opentimestamps_server.Submission.{
  best_block_hash, not_before, timed, macced, commitment_of, submit,
}

-- Four bytes of a time, the highest first.
abbrev pub time_bytes : ℕ → Bytes
time_bytes idx = (idx / 16777216 % 256) ∷ (idx / 65536 % 256) ∷ (idx / 256 % 256) ∷ (idx % 256) ∷ []

module _ (sha256 : Bytes → Bytes) (sizes : (m : Bytes) → length (sha256 m) ≡ 32) where
  length-not_before :
      (o : Option Bytes) (msg : Bytes) → length msg ≡ 32 → length (not_before sha256 o msg) ≡ 32
  length-not_before none msg e = e
  length-not_before (some h) msg e = sizes (msg ++ h)

  length-macced :
      (hmac_key : Bytes) (idx : ℕ) (msg : Bytes)
      → length msg ≡ 32
      → length (macced sha256 hmac_key idx (timed idx msg)) ≡ commitment_size
  length-macced hmac_key idx msg e = omega (
    arith,
    length-append (timed idx msg) (take hmac_size mac),
    length-append (pack idx) msg,
    length-pack idx,
    length-take hmac_size mac,
    sizes (timed idx msg ++ derive_key_for_idx sha256 hmac_key idx 32),
  )
    where
      mac : Bytes
      mac = sha256 (timed idx msg ++ derive_key_for_idx sha256 hmac_key idx 32)

  -- The root with its not-before bound: the newest block's hash in display order, hashed with it.
  pub record IsBound (blocks : List KnownBlock) (msg bound : Bytes) : Type 0 where
    pub unbound : blocks ≡ [] → bound ≡ msg
    pub newest :
        (b : KnownBlock) (bs : List KnownBlock)
        → blocks ≡ b ∷ bs
        → length b.hash ≡ 32
        → bound ≡ sha256 (msg ++ reverse b.hash)

  -- A root of 32 bytes that is submitted at a time below 2 ^ 32 to a journal of whole entries becomes
  -- exactly one new entry, of 44 bytes: the time in four bytes; the root, or the hash of the root and
  -- the newest known block's hash in display order; and the first eight bytes of the hash of these
  -- and the key of that time. The hash gives 32 bytes.
  pub submit_appends_commitment :
      (hmac_key : Bytes) (blocks : List KnownBlock) (idx : ℕ) (side : Disk) (w : JournalWriter)
      (msg : Bytes) (records : Option ℕ)
      → idx < 2 ^ 32
      → length msg ≡ 32
      → IsWhole w.file
      → (bound : Bytes) × IsBound blocks msg bound
        × IsOneMore w
            ((time_bytes idx ++ bound)
              ++ take 8
                  (sha256 ((time_bytes idx ++ bound) ++ derive_key_for_idx sha256 hmac_key idx 32)))
            (submit sha256 hmac_key blocks idx synced side w msg records)
  unfolding submit best_block_hash pack
  submit_appends_commitment hmac_key blocks idx side w msg records fits size whole = (
    bound,
    record { unbound = λ e. rw e refl; newest = λ b bs e full. rw e (rw full refl) },
    (submit_appends side w (commitment_of sha256 hmac_key blocks idx msg) records whole).whole
        (length-macced hmac_key idx bound (length-not_before (best_block_hash blocks) msg size)),
  )
    where
      bound : Bytes
      bound = not_before sha256 (best_block_hash blocks) msg
