-- ===== src/Api/Projects.antt =====
-- api/services/projects.py: applications, projects, their targets, and the scope they authorize.
pub mod Merge
use Prim.Native.Char.{Char, code}
use omniscan.Prelude.{ℕ, String, ◌<>◌, ◌==◌, Bool, true, false, not, ◌&&◌, ◌||◌, Option, none, some}
use omniscan.Prelude.{List, [], ◌∷◌, ◌++◌, select, contains, ltb, eqb, if◌then◌else◌}
use omniscan.Prelude.Text.{truthy, text_before}
use omniscan.Prelude.Sort.{sort}
use omniscan.Prelude.Table.{find_by}
use omniscan.Prelude.Try.{Try, ok, raise, value_error}
use omniscan.Core.Models.{Db, Application, Project, Target, Scope}
use omniscan.Core.World.{
  World, Exec, ◌>>=◌, ◌>>◌, pure, throw, gets, modify, fail_if, new_id, clock,
}

abbrev pub application_key : Application → String
application_key a = a.id

abbrev pub project_key : Project → String
project_key p = p.id

abbrev is_some {ℓ} : {A : Type ℓ} → Option A → Bool
is_some none = false
is_some (some a) = true

unfoldable pub create_application : String → String → Exec Application
unfolding find_by new_id
create_application name slug = do
  existing ← gets (λ db. find_by (λ (a : Application). a.slug) slug db.applications)
  fail_if (is_some existing) (value_error ("application slug already exists: " <> slug))
  id ← new_id "app"
  now ← clock
  let app : Application = record { id = id; name = name; slug = slug; created_at = now }
  modify (λ db. record db { applications = db.applications ++ app ∷ [] })
  pure app

unfoldable pub list_applications : Db → List Application
list_applications db = sort (λ a b. ltb b.created_at a.created_at) db.applications

abbrev text_of : Option String → String
text_of none = "None"
text_of (some s) = s

-- `application_id and await session.get(Application, application_id) is None`
abbrev pub unknown_application : Option String → Db → Bool
unknown_application none db = false
unknown_application (some a) db =
    if a == "" then false else not (is_some (find_by application_key a db.applications))

unfoldable pub create_project : String → String → Option String → Exec Project
unfolding find_by new_id
create_project name slug application_id = do
  existing ← gets (λ db. find_by (λ (p : Project). p.slug) slug db.projects)
  fail_if (is_some existing) (value_error ("project slug already exists: " <> slug))
  unknown ← gets (unknown_application application_id)
  fail_if unknown (value_error ("unknown application: " <> text_of application_id))
  id ← new_id "proj"
  now ← clock
  let project : Project = record {
    id = id;
    name = name;
    slug = slug;
    application_id = application_id;
    created_at = now;
  }
  modify (λ db. record db { projects = db.projects ++ project ∷ [] })
  pure project

unfoldable pub list_projects : Db → List Project
list_projects db = sort (λ a b. ltb b.created_at a.created_at) db.projects

unfoldable pub get_project : Db → String → Option Project
get_project db project_id = find_by project_key project_id db.projects

unfoldable pub create_target :
    String → String → String → List String → List String → Bool → Exec Target
unfolding get_project new_id
create_target project_id kind identifier scope_allow scope_deny ownership_verified = do
  project ← gets (λ db. get_project db project_id)
  fail_if (not (is_some project)) (value_error ("unknown project: " <> project_id))
  id ← new_id "tgt"
  now ← clock
  let target : Target = record {
    id = id;
    project_id = project_id;
    kind = kind;
    identifier = identifier;
    scope_allow = scope_allow;
    scope_deny = scope_deny;
    ownership_verified = ownership_verified;
    created_at = now;
  }
  modify (λ db. record db { targets = db.targets ++ target ∷ [] })
  pure target

unfoldable pub list_targets : Db → String → List Target
list_targets db project_id = select (λ t. t.project_id == project_id) db.targets

-- `set.update`: the elements that are not yet there.
unfoldable pub set_update : List String → List String → List String
set_update s [] = s
set_update s (x ∷ xs) = set_update (if contains s x then s else x ∷ s) xs

-- `sorted(s)`
unfoldable pub sorted : List String → List String
unfolding text_before
sorted = sort text_before

-- The loop over the targets, on the three accumulators.
unfoldable pub merge_targets : Scope → List Target → Scope
merge_targets scope [] = scope
merge_targets scope (t ∷ targets) =
    merge_targets
      (record {
        allow = set_update scope.allow t.scope_allow;
        deny = set_update scope.deny t.scope_deny;
        ownership_verified = scope.ownership_verified || t.ownership_verified;
      })
      targets

-- `ScopeSpec`: the scope that a request may add.
pub record ScopeSpec : Type 0 where
  pub allow : List String
  pub deny : List String

unfoldable pub with_override : Option ScopeSpec → Scope → Scope
with_override none scope = scope
with_override (some o) scope = record scope {
  allow = set_update scope.allow o.allow;
  deny = set_update scope.deny o.deny;
}

unfoldable pub resolve_scope : Db → String → Option ScopeSpec → Scope
unfolding merge_targets with_override
resolve_scope db project_id override =
    let start : Scope = record { allow = []; deny = []; ownership_verified = false } in
    let scope = with_override override (merge_targets start (list_targets db project_id)) in
    record scope { allow = sorted scope.allow; deny = sorted scope.deny }
