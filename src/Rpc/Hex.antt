-- ===== src/Rpc/Hex.antt =====
-- otsserver/rpc.py: the hexadecimal digits of `get_timestamp`.
use opentimestamps_server.Prelude.{
  ℕ, ◌+◌, ◌-◌, ◌*◌, ◌/◌, ◌%◌, ◌<◌, ◌≡◌, refl, ap, sym, subst, length, none, some, [], ◌∷◌, ◌++◌,
  Bytes, codes, ltb, if◌then◌else◌, arith, All,
}
use opentimestamps_server.Rpc.{Reply, nibble, unhexlify, Asked, asked, get_timestamp}
use opentimestamps_server.Checkpoint.{decimal}
use opentimestamps_server.Stamper.Pending.{pending_confirmation, timestamped_by}

abbrev pub hex_digit : ℕ → ℕ
hex_digit n = if ltb n 10 then n + b'0' else n - 10 + b'a'

-- The hexadecimal form of a commitment, two digits for a byte.
unfoldable pub hexlify : Bytes → Bytes
hexlify [] = []
hexlify (b ∷ s) = hex_digit (b / 16) ∷ hex_digit (b % 16) ∷ hexlify s

nibble-hex_digit : (n : ℕ) → n < 16 → nibble (hex_digit n) ≡ some n
unfolding nibble
nibble-hex_digit n h = ground arith

unhexlify-hexlify : (c : Bytes) → All (λ b. b < 256) c → unhexlify (hexlify c) ≡ some c
unfolding unhexlify hexlify
unhexlify-hexlify [] h = refl
unhexlify-hexlify (b ∷ s) h = rw (nibble-hex_digit (b / 16) (omega (arith, h.0))) (
    rw (nibble-hex_digit (b % 16) (omega arith))
      (rw (unhexlify-hexlify s h.1) (ap (λ k. some (k ∷ s)) whole)))
  where
    whole : b / 16 * 16 + b % 16 ≡ b
    whole = omega arith

-- The answer for a commitment, by what the calendar and the stamper know of it.
pub record IsAnswer (a : Asked) (c : Bytes) (reply : Reply) : Type 0 where
  pub held :
      (t : Bytes)
      → a.timestamps c ≡ some t
      → (reply.status ≡ 200)
        × (reply.body ≡ t)
        × (reply.headers
            ≡ (codes "Cache-Control", codes "public, max-age=31536000")
              ∷ (codes "Content-Type", codes "application/octet-stream")
              ∷ (codes "Content-Length", decimal (length t))
              ∷ [])
  pub pending :
      a.timestamps c ≡ none
      → a.is_pending c ≡ some pending_confirmation
      → (reply.status ≡ 404) × (reply.body ≡ codes "Pending confirmation in Bitcoin blockchain")
  pub waiting :
      (txid : Bytes) (n : ℕ)
      → a.timestamps c ≡ none
      → a.is_pending c ≡ some (timestamped_by txid n)
      → (reply.status ≡ 404)
        × (reply.body
            ≡ codes "Timestamped by transaction "
              ++ a.b2lx txid
              ++ codes "; waiting for "
              ++ decimal n
              ++ codes " confirmations")
  pub unknown :
      a.timestamps c ≡ none
      → a.is_pending c ≡ none
      → (reply.status ≡ 404) × (reply.body ≡ codes "Not found")

-- A GET of `/timestamp/` and a commitment's hexadecimal form is answered for that commitment: with
-- 200 and its timestamp where the calendar has one; otherwise with a 404, whose body is the
-- stamper's reason, for a pending commitment or for one that waits for confirmations, or "Not found"
-- where the stamper has none. It holds for every byte string.
pub get_timestamp-hexlify :
    (a : Asked) (c : Bytes)
    → All (λ b. b < 256) c
    → IsAnswer a c (get_timestamp a (codes "/timestamp/" ++ hexlify c))
unfolding get_timestamp
get_timestamp-hexlify a c h =
    subst (IsAnswer a c) (sym (ap (asked a) (unhexlify-hexlify c h))) (record {
      held = λ t e. rw e (refl, refl, refl);
      pending = λ e p. rw e (rw p (refl, refl));
      waiting = λ txid n e p. rw e (rw p (refl, refl));
      unknown = λ e p. rw e (rw p (refl, refl));
    })
