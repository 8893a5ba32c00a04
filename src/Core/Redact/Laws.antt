-- ===== src/Core/Redact/Laws.antt =====
-- What stands at each place of a redacted value.
use omniscan.Prelude.{
  ℕ, zero, suc, String, ◌==◌, eq_iff, ◌≡◌, refl, sym, ◌∙◌, ap, Option, none, some, Bool-cases,
  Option-cases, inl, inr, List, [], ◌∷◌, if◌then◌else◌, arith,
}
use mathlib.Core.Path.{subst}
use omniscan.Python.Json.{Json, Items, Fields, null, boolean, num, str, arr, obj}
use omniscan.Core.Redact.{
  mask, value_patterns, sub_all, redact_str, is_sensitive, redact, redact_items, redact_fields,
}

-- A step into a list or into a dict.
pub data Step : Type 0 where
  item : ℕ → Step
  member : String → Step

abbrev nth : ℕ → Items → Option Json
nth n Items.nil = none
nth zero (Items.cons x xs) = some x
nth (suc n) (Items.cons x xs) = nth n xs

abbrev value_under : String → Fields → Option Json
value_under k Fields.end = none
value_under k (Fields.field j v r) = if j == k then some v else value_under k r

-- What the step leads to.
abbrev into : Step → Option Json → Option Json
into (item n) (some (arr xs)) = nth n xs
into (member k) (some (obj r)) = value_under k r
into _ _ = none

abbrev follow : List Step → Option Json → Option Json
follow [] found = found
follow (step ∷ path) found = follow path (into step found)

-- The value at the end of a path.
unfoldable pub at : List Step → Json → Option Json
at path j = follow path (some j)

follow-none : (path : List Step) → follow path none ≡ none
follow-none [] = refl
follow-none (item n ∷ path) = follow-none path
follow-none (member k ∷ path) = follow-none path

-- Below a sensitive key: the mask in place of the value, and nothing further down.
abbrev pub Masked : List Step → Option Json → Type 0
Masked [] found = found ≡ some (str mask)
Masked (step ∷ path) found = found ≡ none

-- The text with the mask substituted for each pattern, one pattern after the other.
abbrev pub Replaced : (String → String → String → String) → List String → String → String → Type 0
Replaced sub [] s t = t ≡ s
Replaced sub (pat ∷ pats) s t = Replaced sub pats (sub pat mask s) t

-- In place of a value that no sensitive key leads to: of a text, what all the substitutions leave; a
-- truth value, a number or null is unchanged; a list or a dict is one again.
abbrev pub Kept : (String → String → String → String) → Json → Option Json → Type 0
Kept sub null found = found ≡ some null
Kept sub (boolean b) found = found ≡ some (boolean b)
Kept sub (num n) found = found ≡ some (num n)
Kept sub (str s) found = (t : String) × (found ≡ some (str t)) × Replaced sub value_patterns s t
Kept sub (arr xs) found = (ys : Items) × (found ≡ some (arr ys))
Kept sub (obj r) found = (q : Fields) × (found ≡ some (obj q))

-- What is found at a path where `v` stood.
unfoldable pub Shown : (String → String → String → String) → List Step → Json → Option Json → Type 0
Shown sub [] v found = Kept sub v found
Shown sub (item n ∷ path) v found = Shown sub path v found
Shown sub (member k ∷ path) v found =
    if is_sensitive k then Masked path found else Shown sub path v found

module _ (sub : String → String → String → String) where
  nth-redact_items :
      (n : ℕ) (xs : Items) (x : Json)
      → nth n xs ≡ some x
      → nth n (redact_items sub xs) ≡ some (redact sub x)
  unfolding redact
  nth-redact_items n Items.nil x h = absurd (cc h)
  nth-redact_items zero (Items.cons y xs) x h = ap some (ap (redact sub) (cc h))
  nth-redact_items (suc n) (Items.cons y xs) x h = nth-redact_items n xs x h

  value_under-redact_fields :
      (k : String) (r : Fields) (x : Json)
      → value_under k r ≡ some x
      → value_under k (redact_fields sub r)
        ≡ some (if is_sensitive k then str mask else redact sub x)
  unfolding redact
  value_under-redact_fields k Fields.end x h = absurd (cc h)
  value_under-redact_fields k (Fields.field j v r) x h = elim (Bool-cases (j == k)) [
    | inl e ↦
        let same : j ≡ k = (eq_iff j k).0 e in
        let value : v ≡ x = ground (arith, e, h) in rw (e, same, value) refl
    | inr e ↦ rw e (value_under-redact_fields k r x (ground (arith, e, h)))
  ]

  Replaced-sub_all : (pats : List String) (s : String) → Replaced sub pats s (sub_all sub pats s)
  unfolding sub_all
  Replaced-sub_all [] s = refl
  Replaced-sub_all (pat ∷ pats) s = Replaced-sub_all pats (sub pat mask s)

  Kept-redact : (v : Json) → Kept sub v (some (redact sub v))
  unfolding redact redact_str
  Kept-redact null = refl
  Kept-redact (boolean b) = refl
  Kept-redact (num n) = refl
  Kept-redact (str s) = (redact_str sub s, refl, Replaced-sub_all value_patterns s)
  Kept-redact (arr xs) = (redact_items sub xs, refl)
  Kept-redact (obj r) = (redact_fields sub r, refl)

  below_mask : (path : List Step) → Masked path (follow path (some (str mask)))
  below_mask [] = refl
  below_mask (item n ∷ path) = follow-none path
  below_mask (member k ∷ path) = follow-none path

  Shown-follow :
      (path : List Step) (j v : Json)
      → follow path (some j) ≡ some v
      → Shown sub path v (follow path (some (redact sub j)))
  unfolding Shown redact
  Shown-follow [] j v h = subst (λ x. Kept sub x (some (redact sub j))) (cc h) (Kept-redact j)
  Shown-follow (item n ∷ path) (arr xs) v h = elim (Option-cases (nth n xs)) [
    | inl e ↦ absurd (cc (sym h ∙ ap (follow path) e ∙ follow-none path))
    | inr (x, e) ↦
        subst (λ found. Shown sub path v (follow path found)) (sym (nth-redact_items n xs x e))
          (Shown-follow path x v (sym (ap (follow path) e) ∙ h))
  ]
  Shown-follow (member k ∷ path) (obj r) v h = elim (Option-cases (value_under k r)) [
    | inl e ↦ absurd (cc (sym h ∙ ap (follow path) e ∙ follow-none path))
    | inr (x, e) ↦ elim (Bool-cases (is_sensitive k)) [
      | inl secret ↦ rw (value_under-redact_fields k r x e, secret) (below_mask path)
      | inr plain ↦
          rw (value_under-redact_fields k r x e, plain)
            (Shown-follow path x v (sym (ap (follow path) e) ∙ h))
    ]
  ]
  Shown-follow (step ∷ path) j v h = absurd (cc (sym h ∙ follow-none path))

-- Wherever a value stands in what is redacted, at any depth: if some key on its path is sensitive,
-- the mask is found in place of the value under the first such key and nothing below that; if none
-- is, a text is found with every value pattern substituted in it, the scalars are found as they were,
-- and a list or a dict is found as one.
pub redact-Shown :
    (sub : String → String → String → String) (path : List Step) (j v : Json)
    → at path j ≡ some v
    → Shown sub path v (at path (redact sub j))
unfolding at
redact-Shown sub path j v h = Shown-follow sub path j v h
