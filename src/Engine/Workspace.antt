-- ===== src/Engine/Workspace.antt =====
-- engine/workspace.py: the checkout that a source-based scan reads. The file system and the
-- `git` processes are parameters: `is_dir`, `resolve_path`, the fresh directory of `mkdtemp`, and
-- whether a command with these arguments succeeds.
use omniscan.Prelude.{String, ◌<>◌, ◌==◌, Bool, true, false, not, ◌&&◌, ◌||◌, Option, none, some}
use omniscan.Prelude.{List, [], ◌∷◌, if◌then◌else◌}
use omniscan.Prelude.Try.{Try, ok, raise, workspace_error, ◌>>=◌}
use omniscan.Core.Models.{Source}

pub record Machine : Type 0 where
  pub is_dir : String → Bool
  pub resolve_path : String → String
  pub fresh_dir : String
  pub succeeds : List String → Bool

-- `subprocess.run(..., check=True)` inside the `try` of `_clone`.
run_git : Machine → List String → Try (Unit {0})
run_git m command =
    if m.succeeds command then ok tt else raise (workspace_error "failed to clone source")

checkout : Machine → Option String → Try (Unit {0})
unfolding run_git
checkout m none = ok tt
checkout m (some ref) = if ref == "" || ref == "HEAD" then ok tt else do
  fetched ← run_git m ("git" ∷ "-C" ∷ m.fresh_dir ∷ "fetch" ∷ "--depth" ∷ "1" ∷ "origin" ∷ ref ∷ [])
  run_git m ("git" ∷ "-C" ∷ m.fresh_dir ∷ "checkout" ∷ "FETCH_HEAD" ∷ [])

-- `_clone`; a missing `ref` is "HEAD".
unfoldable pub clone : Machine → Source → Try String
unfolding run_git checkout
clone m source = elim source.url [
  | none ↦ raise (workspace_error "git source requires a url")
  | some url ↦
      (if url == "" then raise (workspace_error "git source requires a url") else do
        cloned ← run_git m ("git" ∷ "clone" ∷ "--depth" ∷ "1" ∷ url ∷ m.fresh_dir ∷ [])
        done ← checkout m source.ref
        ok m.fresh_dir)
]

local_path : Machine → Option String → Try (Option String)
local_path m none = raise (workspace_error "source path not found: None")
local_path m (some path) =
    if path == "" || not (m.is_dir path)
    then raise (workspace_error ("source path not found: " <> path))
    else ok (some (m.resolve_path path))

-- `not source`: the dict has no key.
unfoldable pub is_empty_source : Source → Bool
is_empty_source s = absent s.type && absent s.url && absent s.ref && absent s.path && absent s.image
  where
    absent : Option String → Bool
    absent none = true
    absent (some t) = false

-- The tests on `source["type"]`.
prepare_kind : Machine → Source → Option String → Try (Option String)
unfolding clone local_path
prepare_kind m source none = raise (workspace_error "unsupported source type: None")
prepare_kind m source (some kind) =
    if kind == "path"
    then local_path m source.path
    else if kind == "git"
    then (do dest ← clone m source; ok (some dest))
    else if kind == "image"
    then ok none
    else raise (workspace_error ("unsupported source type: " <> kind))

unfoldable pub prepare : Machine → Source → Try (Option String)
unfolding prepare_kind is_empty_source
prepare m source = if is_empty_source source then ok none else prepare_kind m source source.type
