-- ===== src/Prelude/File.antt =====
-- A file as its bytes, and the standard library's positioned reads and writes of it.
use Prim.Native.Nat.{ℕ, ◌+◌, ◌-◌, ◌≤◌, max}
use mathlib.Core.Path.{◌≡◌, ap, ◌∙◌}
use mathlib.Core.List.{◌++◌}
use native.Mathlib.Omega.{arith}
use opentimestamps_server.Prelude.Lists.{
  length, take, drop, replicate, length-append, length-take, length-replicate, take-append_le,
  take_all, drop_all, drop-append_le, drop-append_ge,
}
use opentimestamps_server.Prelude.Lists
use opentimestamps_server.Prelude.ByteString.{Bytes}

-- `os.pread(fd, n, off)`, and `fd.seek(off); fd.read(n)`: fewer bytes at the end of the file.
abbrev pub pread : Bytes → ℕ → ℕ → Bytes
pread file n off = take n (drop off file)

-- `os.pwrite(fd, written, off)` of at least one byte: a gap before `off` is filled with zeros.
unfoldable pub pwrite : Bytes → Bytes → ℕ → Bytes
pwrite file written off =
    take off file ++ replicate (off - length file) 0 ++ written ++ drop (off + length written) file

-- An append that stops after `n` bytes of what it was given.
abbrev pub append_torn : Bytes → Bytes → ℕ → Bytes
append_torn file written n = file ++ take n written

pub length-pread : (file : Bytes) (n off : ℕ) → length (pread file n off) ≤ n
length-pread file n off = omega (arith, length-take n (drop off file))

-- A read inside the old part of a file is not changed by an append.
pub pread-append_old :
    (file more : Bytes) (n off : ℕ)
    → off + n ≤ length file
    → pread (file ++ more) n off ≡ pread file n off
pread-append_old file more n off h =
    ap (take n) (drop-append_le off file more (omega arith))
    ∙ take-append_le n (drop off file) more (omega (arith, Lists.length-drop off file))

-- A read at the old end of a file gives what was appended.
pub pread-append_new : (file more : Bytes) → pread (file ++ more) (length more) (length file) ≡ more
pread-append_new file more =
    ap (take (length more)) (drop-append_ge (length file) file more (omega arith))
    ∙ ap (λ k. take (length more) (drop k more)) zero_off
    ∙ take_all (length more) more (omega arith)
  where
    zero_off : length file - length file ≡ 0
    zero_off = omega arith

pub length-pwrite :
    (file written : Bytes) (off : ℕ)
    → length (pwrite file written off) ≤ max (length file) (off + length written)
unfolding pwrite
length-pwrite file written off = omega (
  arith,
  length-append (take off file ++ replicate (off - length file) 0 ++ written)
      (drop (off + length written) file),
  length-append (take off file ++ replicate (off - length file) 0) written,
  length-append (take off file) (replicate (off - length file) 0),
  length-take off file,
  length-replicate {A = ℕ} (off - length file) 0,
  Lists.length-drop (off + length written) file,
)
