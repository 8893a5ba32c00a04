-- ===== src/Prelude/Sort.antt =====
-- `ORDER BY key` and `sorted(key=...)`: a stable insertion sort on a Boolean order.
use mathlib.Core.Path.{◌≡◌, refl}
use mathlib.Core.Bool.{Bool, ◌||◌}
use native.Mathlib.Omega.{arith}
use omniscan.Prelude.Lists.{any}
use mathlib.Core.List.{List, [], ◌∷◌, map, Perm}
use mathlib.Core.List.Perm
use omniscan.Prelude.Tests.{if◌then◌else◌, Bool-cases}
use mathlib.Core.Logic.{inl, inr}

module _ {ℓ} {A : Type ℓ} (before : A → A → Bool) where
  -- The new element goes behind those that must come before it, and no further.
  unfoldable pub place : A → List A → List A
  place x [] = x ∷ []
  place x (y ∷ ys) = if before y x then y ∷ place x ys else x ∷ y ∷ ys

  unfoldable pub sort : List A → List A
  unfolding place
  sort [] = []
  sort (x ∷ xs) = place x (sort xs)

  place-perm : (x : A) (ys : List A) → Perm (place x ys) (x ∷ ys)
  unfolding place
  place-perm x [] = Perm.refl (x ∷ [])
  place-perm x (y ∷ ys) = elim (Bool-cases (before y x)) [
    | inl e ↦ rw e (Perm.trans (Perm.cons y (place-perm x ys)) (Perm.swap x y ys))
    | inr e ↦ rw e (Perm.refl (x ∷ y ∷ ys))
  ]

  pub sort-perm : (xs : List A) → Perm (sort xs) xs
  unfolding sort
  sort-perm [] = Perm.refl []
  sort-perm (x ∷ xs) = Perm.trans (place-perm x (sort xs)) (Perm.cons x (sort-perm xs))

  any-place : (p : A → Bool) (x : A) (ys : List A) → any p (place x ys) ≡ (p x || any p ys)
  unfolding place
  any-place p x [] = refl
  any-place p x (y ∷ ys) = ground (arith, any-place p x ys)

  -- A test of some element does not see the order.
  pub any-sort : (p : A → Bool) (xs : List A) → any p (sort xs) ≡ any p xs
  unfolding sort
  any-sort p [] = refl
  any-sort p (x ∷ xs) = ground (arith, any-place p x (sort xs), any-sort p xs)

-- A map that keeps the order goes through the sort.
module _ {ℓ κ} {A : Type ℓ} {B : Type κ} (f : A → B) (before : A → A → Bool) (after : B → B → Bool)
    (same : (x y : A) → after (f x) (f y) ≡ before x y) where
  place-map : (x : A) (ys : List A) → place after (f x) (map f ys) ≡ map f (place before x ys)
  unfolding place
  place-map x [] = refl
  place-map x (y ∷ ys) = ground (arith, same y x, place-map x ys)

  pub sort-map : (xs : List A) → sort after (map f xs) ≡ map f (sort before xs)
  unfolding sort
  sort-map [] = refl
  sort-map (x ∷ xs) = rw (sort-map xs) (place-map x (sort before xs))
