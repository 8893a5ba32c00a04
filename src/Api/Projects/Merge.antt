-- ===== src/Api/Projects/Merge.antt =====
-- What the merge of the targets' scopes gives, as sets.
use omniscan.Prelude.{String, ◌≡◌, refl, ◌∙◌, Bool, false, ◌||◌, Option, none, some}
use omniscan.Prelude.{List, [], ◌∷◌, any, contains, arith, eq_iff}
use omniscan.Prelude.Sort.{sort, place}
use omniscan.Core.Models.{Db, Target, Scope}
use omniscan.Api.Projects.{
  set_update, sorted, merge_targets, with_override, ScopeSpec, resolve_scope, list_targets,
}

contains-place :
    (before : String → String → Bool) (x y : String) (ys : List String)
    → contains (place before y ys) x ≡ contains (y ∷ ys) x
unfolding place
contains-place before x y [] = refl
contains-place before x y (z ∷ zs) = ground (arith, contains-place before x y zs)

contains-sort :
    (before : String → String → Bool) (x : String) (ys : List String)
    → contains (sort before ys) x ≡ contains ys x
unfolding sort
contains-sort before x [] = refl
contains-sort before x (y ∷ ys) =
    ground (arith, contains-place before x y (sort before ys), contains-sort before x ys)

contains-set_update :
    (x : String) (s xs : List String)
    → contains (set_update s xs) x ≡ (contains s x || contains xs x)
unfolding set_update
contains-set_update x s [] = ground arith
contains-set_update x s (y ∷ ys) =
    ground (arith, contains-set_update x s ys, contains-set_update x (y ∷ s) ys, eq_iff y x)

-- Some target of the list has the element.
abbrev pub granted : (Target → List String) → List Target → String → Bool
granted field targets x = any (λ t. contains (field t) x) targets

abbrev pub requested : (ScopeSpec → List String) → Option ScopeSpec → String → Bool
requested field none x = false
requested field (some o) x = contains (field o) x

merge_targets-sets :
    (x : String) (scope : Scope) (targets : List Target)
    → let merged = merge_targets scope targets in
      (contains merged.allow x ≡ (contains scope.allow x || granted (λ t. t.scope_allow) targets x))
      × (contains merged.deny x ≡ (contains scope.deny x || granted (λ t. t.scope_deny) targets x))
      × (merged.ownership_verified
          ≡ (scope.ownership_verified || any (λ t. t.ownership_verified) targets))
unfolding merge_targets
merge_targets-sets x scope [] = (ground arith, ground arith, ground arith)
merge_targets-sets x scope (t ∷ targets) =
    let next : Scope = record {
      allow = set_update scope.allow t.scope_allow;
      deny = set_update scope.deny t.scope_deny;
      ownership_verified = scope.ownership_verified || t.ownership_verified;
    } in
    let (a, d, o) = merge_targets-sets x next targets in
    (
      ground (arith, a, contains-set_update x scope.allow t.scope_allow),
      ground (arith, d, contains-set_update x scope.deny t.scope_deny),
      ground (arith, o),
    )

with_override-sets :
    (x : String) (o : Option ScopeSpec) (scope : Scope)
    → let merged = with_override o scope in
      (contains merged.allow x ≡ (contains scope.allow x || requested (λ s. s.allow) o x))
      × (contains merged.deny x ≡ (contains scope.deny x || requested (λ s. s.deny) o x))
      × (merged.ownership_verified ≡ scope.ownership_verified)
unfolding with_override
with_override-sets x none scope = (ground arith, ground arith, refl)
with_override-sets x (some o) scope =
    (contains-set_update x scope.allow o.allow, contains-set_update x scope.deny o.deny, refl)

-- The resolved scope as sets: a pattern is allowed if a target of the project or the request allows
-- it, and denied if one of them denies it; the ownership is verified if some target's is, whatever
-- the request says.
pub resolve_scope-sets :
    (db : Db) (project_id : String) (o : Option ScopeSpec) (x : String)
    → let scope = resolve_scope db project_id o in
      let targets = list_targets db project_id in
      (contains scope.allow x
        ≡ (granted (λ t. t.scope_allow) targets x || requested (λ s. s.allow) o x))
      × (contains scope.deny x
          ≡ (granted (λ t. t.scope_deny) targets x || requested (λ s. s.deny) o x))
      × (scope.ownership_verified ≡ any (λ t. t.ownership_verified) targets)
unfolding resolve_scope sorted
resolve_scope-sets db project_id o x =
    let start : Scope = record { allow = []; deny = []; ownership_verified = false } in
    let merged = merge_targets start (list_targets db project_id) in
    let (a, d, v) = merge_targets-sets x start (list_targets db project_id) in
    let (a2, d2, v2) = with_override-sets x o merged in
    (
      contains-sort _ x (with_override o merged).allow ∙ a2 ∙ rw a refl,
      contains-sort _ x (with_override o merged).deny ∙ d2 ∙ rw d refl,
      v2 ∙ v,
    )
