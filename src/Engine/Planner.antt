-- ===== src/Engine/Planner.antt =====
-- engine/planner.py: a scan request becomes the jobs to run, scope first.
pub mod Laws
use omniscan.Prelude.{String, ◌<>◌, ◌==◌, Bool, true, false, not, Option, none, some}
use omniscan.Prelude.{List, [], ◌∷◌, ◌++◌, map, select, contains, is_nil, if◌then◌else◌}
use omniscan.Prelude.Text.{truthy}
use omniscan.Prelude.Try.{Try, ok, raise, value_error, ◌>>=◌, ◌>>◌, raise_if}
use omniscan.Python.Url.{hostname, span_to, drop_char}
use omniscan.Prelude.Text.{same_char}
use omniscan.Core.Enums.{ScanClass, class_value}
use omniscan.Core.Models.{Source, TargetSpec}
use omniscan.Core.ScopeGuard.{enforce}
use omniscan.Adapters.Registry.{Registry, default_tools, names_for_class}

pub record PlannedJob : Type 0 where
  pub adapter : String
  pub scan_class : ScanClass
  pub depends_on : List String

pub record ScanPlan : Type 0 where
  pub scan_class : ScanClass
  pub jobs : List PlannedJob

-- `url.startswith("git@")`
starts_git : String → Bool
starts_git (String.◌∷◌ a (String.◌∷◌ b (String.◌∷◌ c (String.◌∷◌ d s)))) =
    String.◌∷◌ a (String.◌∷◌ b (String.◌∷◌ c (String.◌∷◌ d ""))) == "git@"
starts_git _ = false

-- `url.split("@", 1)[1].split(":", 1)[0]`, for a url with an `@`
git_host : String → String
unfolding span_to
git_host url = (span_to (λ c. same_char c ":") (drop_char (span_to (λ c. same_char c "@") url).1)).0

-- The host of a source url; `urlparse` may raise.
url_host : String → Try String
unfolding starts_git git_host
url_host url = if starts_git url then ok (git_host url) else do
  parsed ← hostname url
  ok (elim parsed [ none ↦ url | some name ↦ (if name == "" then url else name) ])

source_hosts : Option String → Try (List String)
source_hosts none = ok []
source_hosts (some url) = if url == "" then ok [] else do h ← url_host url; ok (h ∷ [])

target_hosts : Option String → List String
target_hosts none = []
target_hosts (some base_url) = if base_url == "" then [] else base_url ∷ []

-- `_requested_hosts`
unfoldable pub requested_hosts : Source → TargetSpec → Try (List String)
unfolding source_hosts target_hosts url_host
requested_hosts source target = do
  hosts ← source_hosts source.url
  ok (target_hosts target.base_url ++ hosts)

-- `tools or registry.default_tools(scan_class)`
unfoldable pub requested_tools : Registry → ScanClass → Option (List String) → List String
requested_tools adapters scan_class none = default_tools adapters scan_class
requested_tools adapters scan_class (some []) = default_tools adapters scan_class
requested_tools adapters scan_class (some (t ∷ ts)) = t ∷ ts

abbrev pub planned : ScanClass → String → PlannedJob
planned scan_class name = record { adapter = name; scan_class = scan_class; depends_on = [] }

-- `str` of a list of names that have no quotes in them.
quoted : List String → String
quoted [] = ""
quoted (t ∷ []) = "'" <> t <> "'"
quoted (t ∷ ts) = "'" <> t <> "', " <> quoted ts

unfoldable pub names_text : List String → String
unfolding quoted
names_text ts = "[" <> quoted ts <> "]"

unfoldable pub plan :
    Registry
    → ScanClass
    → Option (List String)
    → Source
    → TargetSpec
    → Bool
    → List String
    → List String
    → Try ScanPlan
unfolding requested_tools
plan adapters scan_class tools source target ownership_verified scope_allow scope_deny = do
  hosts ← requested_hosts source target
  enforce scan_class ownership_verified scope_allow scope_deny hosts
  let requested = requested_tools adapters scan_class tools
  raise_if (is_nil requested)
      (value_error ("no adapters available for scan_class " <> class_value scan_class))
  let available = names_for_class adapters scan_class
  let unknown = select (λ t. not (contains available t)) requested
  raise_if (not (is_nil unknown)) (
      value_error
        ("tools not available for " <> class_value scan_class <> ": " <> names_text unknown))
  ok (record { scan_class = scan_class; jobs = map (planned scan_class) requested })
