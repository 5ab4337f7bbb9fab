-- ===== src/Prelude/Distinct.antt =====
-- A Python set as the list of its elements, each once, in the order in which they came.
use opentimestamps_server.Prelude.Tests.{if◌then◌else◌, Bool-cases}
use mathlib.Core.Path.{◌≡◌, refl, sym, subst}
use mathlib.Core.Logic.{◌↔◌, inl, inr}
use mathlib.Core.Bool.{Bool, true, false, ◌||◌}
use mathlib.Core.List.{List, [], ◌∷◌, ◌++◌, append-nil, append_assoc}
use native.Mathlib.Omega.{arith}

module _ {ℓ} {T : Type ℓ} (same : T → T → Bool) where
  -- `x in xs`
  unfoldable pub has : T → List T → Bool
  has x [] = false
  has x (y ∷ ys) = same x y || has x ys

  -- `xs.add(x)`
  unfoldable pub include : List T → T → List T
  unfolding has
  include xs x = if has x xs then xs else xs ++ x ∷ []

  -- `xs.update(ys)`
  unfoldable pub update : List T → List T → List T
  unfolding include
  update xs [] = xs
  update xs (y ∷ ys) = update (include xs y) ys

  -- No element of the second list is in the first, or twice in the second.
  unfoldable pub IsFresh : List T → List T → Type 0
  IsFresh acc [] = Unit {0}
  IsFresh acc (x ∷ xs) = (has x acc ≡ false) × IsFresh (acc ++ x ∷ []) xs

  pub has-append : (x : T) (xs ys : List T) → has x (xs ++ ys) ≡ (has x xs || has x ys)
  unfolding has
  has-append x [] ys = refl
  has-append x (z ∷ xs) ys = ground (arith, has-append x xs ys)

  pub has-include_old : (x y : T) (xs : List T) → has x xs ≡ true → has x (include xs y) ≡ true
  unfolding include
  has-include_old x y xs h = elim (Bool-cases (has y xs)) [
    | inl there ↦ rw there h
    | inr new ↦ rw new (rw has-append (rw h refl))
  ]

  pub has-update_old : (x : T) (xs ys : List T) → has x xs ≡ true → has x (update xs ys) ≡ true
  unfolding update
  has-update_old x xs [] h = h
  has-update_old x xs (y ∷ ys) h = has-update_old x (include xs y) ys (has-include_old x y xs h)

  append-IsFresh :
      (acc xs : List T) (x : T)
      → IsFresh acc xs
      → has x (acc ++ xs) ≡ false
      → IsFresh acc (xs ++ x ∷ [])
  unfolding IsFresh
  append-IsFresh acc [] x h new = (subst (λ zs. has x zs ≡ false) (append-nil acc) new, tt)
  append-IsFresh acc (y ∷ ys) x (h, hs) new = (
    h,
    append-IsFresh (acc ++ y ∷ []) ys x hs
        (subst (λ zs. has x zs ≡ false) (sym (append_assoc acc (y ∷ []) ys)) new),
  )

  include-IsFresh : (xs : List T) (x : T) → IsFresh [] xs → IsFresh [] (include xs x)
  unfolding include
  include-IsFresh xs x h = elim (Bool-cases (has x xs)) [
    | inl there ↦ rw there h
    | inr new ↦ rw new (append-IsFresh [] xs x h new)
  ]

  pub update-IsFresh : (xs ys : List T) → IsFresh [] xs → IsFresh [] (update xs ys)
  unfolding update
  update-IsFresh xs [] h = h
  update-IsFresh xs (y ∷ ys) h = update-IsFresh (include xs y) ys (include-IsFresh xs y h)

  module _ (same_iff : (x y : T) → (same x y ≡ true) ↔ (x ≡ y)) where
    has_self : (x : T) (ys : List T) → has x (x ∷ ys) ≡ true
    unfolding has
    has_self x ys = rw ((same_iff x x).1 refl) refl

    has-include : (x : T) (xs : List T) → has x (include xs x) ≡ true
    unfolding include
    has-include x xs = elim (Bool-cases (has x xs)) [
      | inl there ↦ rw there there
      | inr new ↦ rw new (rw has-append (rw new (has_self x [])))
    ]

    pub has-update : (x : T) (xs ys : List T) → has x ys ≡ true → has x (update xs ys) ≡ true
    unfolding update has
    has-update x xs [] h = cc
    has-update x xs (y ∷ ys) h = elim (Bool-cases (same x y)) [
      | inl e ↦
          has-update_old x (include xs y) ys
            (subst (λ z. has x (include xs z) ≡ true) ((same_iff x y).0 e) (has-include x xs))
      | inr ne ↦ has-update x (include xs y) ys (ground (arith, ne, h))
    ]
