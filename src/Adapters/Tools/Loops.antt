-- ===== src/Adapters/Tools/Loops.antt =====
-- The loop that may raise: what it returns is what its rounds return.
use omniscan.Prelude.{◌≡◌, sym, ◌∙◌, ap, List, [], ◌∷◌, All, map}
use mathlib.Core.Path.{subst, ap₂}
use omniscan.Prelude.Try.{Try, ok, bind-ok}
use omniscan.Adapters.Tools.{map_try}

module _ {A B : Type 0} (f : A → Try B) where
  pub map_try-All :
      (P : B → Type 0)
      → ((a : A) (b : B) → f a ≡ ok b → P b)
      → (xs : List A) (bs : List B) → map_try f xs ≡ ok bs
      → All P bs
  unfolding map_try
  map_try-All P each [] bs h = let e : [] ≡ bs = cc h in subst (All P) e tt
  map_try-All P each (a ∷ xs) bs h =
      let (b, e, h1) = bind-ok (f a) _ bs h in
      let (rest, g, h2) = bind-ok (map_try f xs) _ bs h1 in
      let built : b ∷ rest ≡ bs = cc h2 in
      subst (All P) built (each a b e, map_try-All P each xs rest g)

  pub map_try-map :
      {C : Type 0} (g : B → C) (k : A → C)
      → ((a : A) (b : B) → f a ≡ ok b → g b ≡ k a)
      → (xs : List A) (bs : List B) → map_try f xs ≡ ok bs
      → map g bs ≡ map k xs
  unfolding map_try
  map_try-map g k each [] bs h = let e : [] ≡ bs = cc h in ap (map g) (sym e)
  map_try-map g k each (a ∷ xs) bs h =
      let (b, e, h1) = bind-ok (f a) _ bs h in
      let (rest, r, h2) = bind-ok (map_try f xs) _ bs h1 in
      let built : b ∷ rest ≡ bs = cc h2 in
      ap (map g) (sym built) ∙ ap₂ ◌∷◌ (each a b e) (map_try-map g k each xs rest r)
