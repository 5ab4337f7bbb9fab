-- ===== src/Prelude/Dict.antt =====
-- A Python dict keyed by byte strings, in insertion order: an update keeps the place of its key.
use opentimestamps_server.Prelude.Tests.{if◌then◌else◌, is_some, Bool-cases}
use opentimestamps_server.Prelude.Lists.{length, All}
use opentimestamps_server.Prelude.ByteString.{Bytes, bytes_eq, bytes_eq_iff}
use Prim.Native.Nat.{◌≤◌}
use mathlib.Core.Path.{◌≡◌, refl, subst}
use mathlib.Core.Logic.{inl, inr}
use mathlib.Core.Option.{some-injective}
use mathlib.Core.Bool.{Bool}
use mathlib.Core.List.{List, [], ◌∷◌, ◌++◌}
use mathlib.Core.Option.{Option, none, some}
use native.Mathlib.Omega.{arith}

abbrev pub Dict {ℓ} : Type ℓ → Type ℓ
Dict V = List (Bytes × V)

module _ {ℓ} {V : Type ℓ} where
  unfoldable pub lookup : Bytes → Dict V → Option V
  lookup k [] = none
  lookup k ((j, v) ∷ d) = if bytes_eq j k then some v else lookup k d

  -- `k in d`
  abbrev pub contains : Bytes → Dict V → Bool
  contains k d = is_some (lookup k d)

  -- `d[k] = v`
  unfoldable pub insert : Bytes → V → Dict V → Dict V
  insert k v [] = (k, v) ∷ []
  insert k v ((j, w) ∷ d) = if bytes_eq j k then (j, v) ∷ d else (j, w) ∷ insert k v d

  -- `d.pop(k, None)`, on a list that holds every key once.
  unfoldable pub erase : Bytes → Dict V → Dict V
  erase k [] = []
  erase k ((j, w) ∷ d) = let rest = erase k d in if bytes_eq j k then rest else (j, w) ∷ rest

  pub lookup-insert :
      (k j : Bytes) (v : V) (d : Dict V)
      → lookup j (insert k v d) ≡ (if bytes_eq k j then some v else lookup j d)
  unfolding lookup insert
  lookup-insert k j v [] = refl
  lookup-insert k j v ((i, w) ∷ d) =
      ground (arith, bytes_eq_iff k j, bytes_eq_iff i k, bytes_eq_iff i j, lookup-insert k j v d)

  pub lookup-erase :
      (k j : Bytes) (d : Dict V)
      → lookup j (erase k d) ≡ (if bytes_eq k j then none else lookup j d)
  unfolding lookup erase
  lookup-erase k j [] = ground arith
  lookup-erase k j ((i, w) ∷ d) =
      ground (arith, bytes_eq_iff k j, bytes_eq_iff i k, bytes_eq_iff i j, lookup-erase k j d)

  pub lookup-append :
      (j : Bytes) (d e : Dict V)
      → lookup j (d ++ e) ≡ (if is_some (lookup j d) then lookup j d else lookup j e)
  unfolding lookup
  lookup-append j [] e = refl
  lookup-append j ((i, w) ∷ d) e = ground (arith, lookup-append j d e)

  pub length-erase : (k : Bytes) (d : Dict V) → length (erase k d) ≤ length d
  unfolding erase
  length-erase k [] = omega arith
  length-erase k ((i, w) ∷ d) = ground (arith, length-erase k d)

module _ {ℓ κ} {V : Type ℓ} where
  -- A predicate on every value of a dict.
  abbrev pub Values : (V → Type κ) → Dict V → Type κ
  Values P d = All (λ (e : Bytes × V). P e.1) d

  pub Values-lookup :
      (P : V → Type κ) (k : Bytes) (v : V) (d : Dict V) → Values P d → lookup k d ≡ some v → P v
  unfolding lookup
  Values-lookup P k v [] h e = cc
  Values-lookup P k v ((j, w) ∷ d) h e = elim (Bool-cases (bytes_eq j k)) [
    | inl same ↦ subst P (some-injective w v (rw same at e)) h.0
    | inr other ↦ Values-lookup P k v d h.1 (rw other at e)
  ]

  pub Values-insert :
      (P : V → Type κ) (k : Bytes) (v : V) (d : Dict V) → Values P d → P v → Values P (insert k v d)
  unfolding insert
  Values-insert P k v [] h p = (p, tt)
  Values-insert P k v ((j, w) ∷ d) h p = elim (Bool-cases (bytes_eq j k)) [
    | inl same ↦ rw same (p, h.1)
    | inr other ↦ rw other (h.0, Values-insert P k v d h.1 p)
  ]

  pub Values-erase : (P : V → Type κ) (k : Bytes) (d : Dict V) → Values P d → Values P (erase k d)
  unfolding erase
  Values-erase P k [] h = tt
  Values-erase P k ((j, w) ∷ d) h = elim (Bool-cases (bytes_eq j k)) [
    | inl same ↦ rw same (Values-erase P k d h.1)
    | inr other ↦ rw other (h.0, Values-erase P k d h.1)
  ]

  pub Values-imp : (P Q : V → Type κ) (d : Dict V) → ((v : V) → P v → Q v) → Values P d → Values Q d
  Values-imp P Q [] f h = tt
  Values-imp P Q ((j, w) ∷ d) f h = (f w h.0, Values-imp P Q d f h.1)
