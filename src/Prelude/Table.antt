-- ===== src/Prelude/Table.antt =====
-- A table of rows with a text key: `session.get`, `session.add`, and the mutation of a loaded row.
use Prim.Native.String.{String}
use mathlib.Core.Path.{◌≡◌, refl, subst}
use mathlib.Core.Bool.{false}
use mathlib.Core.Option.{Option, none, some}
use mathlib.Core.List.{List, [], ◌∷◌, ◌++◌}
use native.Mathlib.Omega.{arith}
use text.Mathlib.Text.{◌==◌}
use text.Mathlib.TextEquality.{eq_iff}
use mathlib.Core.Logic.{inl, inr}
use omniscan.Prelude.Lists.{All}
use omniscan.Prelude.Tests.{if◌then◌else◌, Bool-cases}

module _ {ℓ} {A : Type ℓ} (key : A → String) where
  -- `session.get(Table, k)`
  unfoldable pub find_by : String → List A → Option A
  find_by k [] = none
  find_by k (x ∷ xs) = if key x == k then some x else find_by k xs

  -- `row = session.get(Table, k)` and then assignments to fields of `row`, which `f` makes.
  unfoldable pub update_by : String → (A → A) → List A → List A
  update_by k f [] = []
  update_by k f (x ∷ xs) = if key x == k then f x ∷ xs else x ∷ update_by k f xs

  -- `find_by` after `session.add`.
  pub find_by-append_some :
      (k : String) (x a : A) (xs : List A)
      → find_by k xs ≡ some a
      → find_by k (xs ++ x ∷ []) ≡ some a
  unfolding find_by
  find_by-append_some k x a [] h = cc
  find_by-append_some k x a (y ∷ xs) h = ground (arith, find_by-append_some k x a xs)

  pub find_by-append_none :
      (k : String) (x : A) (xs : List A)
      → find_by k xs ≡ none
      → find_by k (xs ++ x ∷ []) ≡ (if key x == k then some x else none)
  unfolding find_by
  find_by-append_none k x [] h = refl
  find_by-append_none k x (y ∷ xs) h = ground (arith, find_by-append_none k x xs)

  pub find_by-key : (k : String) (a : A) (xs : List A) → find_by k xs ≡ some a → key a ≡ k
  unfolding find_by
  find_by-key k a [] h = cc
  find_by-key k a (x ∷ xs) h = ground (arith, find_by-key k a xs, eq_iff (key x) k)

  -- The row that was changed.
  pub find_by-update_by_self :
      (k : String) (f : A → A) (xs : List A)
      → ((x : A) → key (f x) ≡ key x)
      → (a : A) → find_by k xs ≡ some a
      → find_by k (update_by k f xs) ≡ some (f a)
  unfolding find_by update_by
  find_by-update_by_self k f [] keeps a h = cc
  find_by-update_by_self k f (x ∷ xs) keeps a h =
      ground (arith, keeps x, find_by-update_by_self k f xs keeps a)

  -- The other rows.
  pub find_by-update_by_ne :
      (k j : String) (f : A → A) (xs : List A)
      → ((x : A) → key (f x) ≡ key x)
      → (j == k) ≡ false
      → find_by j (update_by k f xs) ≡ find_by j xs
  unfolding find_by update_by
  find_by-update_by_ne k j f [] keeps h = refl
  find_by-update_by_ne k j f (x ∷ xs) keeps h = ground (
    arith,
    keeps x,
    find_by-update_by_ne k j f xs keeps,
    eq_iff (key x) k,
    eq_iff (key x) j,
    eq_iff j k,
  )

  -- What holds of all rows holds of the one that is found.
  pub find_by-All {κ} :
      (k : String) (P : A → Type κ) (xs : List A) (a : A) → find_by k xs ≡ some a → All P xs → P a
  unfolding find_by
  find_by-All k P [] a h all = absurd (cc h)
  find_by-All k P (x ∷ xs) a h (px, all) = elim (Bool-cases (key x == k)) [
    | inl e ↦ let same : x ≡ a = ground (arith, e, h) in subst P same px
    | inr e ↦ find_by-All k P xs a (ground (arith, e, h)) all
  ]
