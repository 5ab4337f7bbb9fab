-- ===== src/Keys.antt =====
-- otsserver/calendar.py: `derive_key_for_idx`, the tree of per-index keys. SHA-256 is a parameter.
pub mod Subtree
use Prim.Native.Nat.{zero, suc}
use opentimestamps_server.Prelude.{ℕ, ◌/◌, ◌%◌, ◌^◌, [], ◌∷◌, ◌++◌, Bytes, ◌==◌, if◌then◌else◌}

-- `b'\xff' if (idx >> bits-1) & 0b1 else b'\x00'`, for `bits - 1` as `b`.
abbrev pub branch : ℕ → ℕ → Bytes
branch idx b = (if idx / 2 ^ b % 2 == 1 then 0xff else 0x00) ∷ []

-- The source recurses with `bits - 1` until `bits` is 0.
unfoldable pub derive_key_for_idx : (Bytes → Bytes) → Bytes → ℕ → ℕ → Bytes
derive_key_for_idx sha256 key idx zero = key
derive_key_for_idx sha256 key idx (suc b) =
    derive_key_for_idx sha256 (sha256 (key ++ branch idx b)) idx b
