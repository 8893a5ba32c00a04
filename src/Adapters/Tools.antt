-- ===== src/Adapters/Tools.antt =====
-- What the adapters share: the libraries they call, and the reading of what scanners print.
pub mod Loops
use Prim.Native.Char.{Char, code}
use omniscan.Prelude.{
  leb, ℕ, String, ◌<>◌, ◌==◌, Bool, true, false, not, ◌&&◌, ◌||◌, Option, none, some,
}
use omniscan.Prelude.{List, [], ◌∷◌, map, if◌then◌else◌}
use omniscan.Prelude.Text.{truthy, begins_with, drop_text, text_length}
use omniscan.Prelude.Dict.{Dict, lookup, has_key, insert, set_default}
use omniscan.Prelude.Try.{
  Exn, other_error, Try, ok, raise, value_error, key_error, raise_if, ◌>>=◌, ◌>>◌,
}
use omniscan.Python.Json.{Json, JsonDict, null, str, num, value_at, json_truthy}
use omniscan.Normalize.Fingerprint.{format}
use omniscan.Core.Enums.{ScanClass, same_class}
use omniscan.Normalize.Runtime.{Runtime}
use omniscan.Normalize.Sarif.{
  ArtifactLocation, PhysicalLocation, Region, Location, Result, ReportingDescriptor, Run, SarifLog,
  ToolComponent,
}
use omniscan.Adapters.Base.{ScanRequest}

-- `json.loads` and `json.dumps`, pydantic's reading of SARIF and of an `int` that is not null, tests on
-- paths, the environment, and the substitution of the value patterns of `redact`.
pub record Libraries : Type 0 where
  pub runtime : Runtime
  pub loads : String → Try Json
  pub dumps : Json → String
  pub load_sarif : String → Try SarifLog
  pub to_int : Json → Try ℕ
  pub is_dir : String → Bool
  pub is_file : String → Bool
  pub root : String
  pub environ : String → Option String
  pub sub : String → String → String → String

-- `request.scan_class is not C`
abbrev pub require_class : ScanRequest → ScanClass → String → Try (Unit {0})
require_class request c text = raise_if (not (same_class request.scan_class c)) (value_error text)

-- `not request.workspace_path`
abbrev pub require_workspace : ScanRequest → String → Try (Unit {0})
require_workspace request text = raise_if (not (truthy request.workspace_path)) (value_error text)

-- `str(request.workspace_path)`
unfoldable pub path_text : Option String → String
path_text none = "None"
path_text (some p) = p

-- `not request.workspace_path or not Path(request.workspace_path).is_dir()`
unfoldable pub no_checkout : Libraries → Option String → Bool
no_checkout lib none = true
no_checkout lib (some p) = p == "" || not (lib.is_dir p)

-- `request.workspace_path or "."`
unfoldable pub workspace_or_dot : Option String → String
workspace_or_dot none = "."
workspace_or_dot (some p) = if p == "" then "." else p

-- `item[key]`
unfoldable pub item_at : String → JsonDict → Try Json
item_at key d = elim (lookup key d) [ none ↦ raise (key_error key) | some v ↦ ok v ]

-- A value that pydantic takes for a `str`, and one for an `int` or `None`.
unfoldable pub as_text : Json → Try String
as_text (str s) = ok s
as_text _ = raise (value_error "Input should be a valid string")

unfoldable pub as_line : Libraries → Json → Try (Option ℕ)
as_line lib null = ok none
as_line lib j = do n ← lib.to_int j; ok (some n)

-- The loop `for x in xs: out.append(f(x))`, where `f` may raise.
unfoldable pub map_try {ℓ κ} : {A : Type ℓ} {B : Type κ} → (A → Try B) → List A → Try (List B)
map_try f [] = ok []
map_try f (x ∷ xs) = do y ← f x; ys ← map_try f xs; ok (y ∷ ys)

-- The path below the mount point, for paths that lie under it.
cut : String → String → String
cut prefix uri = if begins_with uri prefix then drop_text (text_length prefix) uri else uri

cut_artifact : String → ArtifactLocation → ArtifactLocation
unfolding cut
cut_artifact prefix a = elim a.uri [ none ↦ a | some uri ↦ record { uri = some (cut prefix uri) } ]

cut_physical : String → PhysicalLocation → PhysicalLocation
unfolding cut_artifact
cut_physical prefix p = elim p.artifact_location [
  | none ↦ p
  | some a ↦ record p { artifact_location = some (cut_artifact prefix a) }
]

unfoldable pub relative_location : String → Location → Location
unfolding cut_physical
relative_location prefix loc = elim loc.physical_location [
  | none ↦ loc
  | some p ↦ record loc { physical_location = some (cut_physical prefix p) }
]

-- A change of every result of every run, which sees the rules of its run.
abbrev pub change_run : (List ReportingDescriptor → Result → Result) → Run → Run
change_run f run = record run { results = map (f run.driver.rules) run.results }

unfoldable pub map_results : (List ReportingDescriptor → Result → Result) → SarifLog → SarifLog
map_results f sarif = record { runs = map (change_run f) sarif.runs }

abbrev pub no_sarif : SarifLog
no_sarif = record { runs = [] }

-- One run of one tool.
abbrev pub one_run : String → List ReportingDescriptor → List Result → SarifLog
one_run name rules results = record {
  runs =
      record { driver = record { name = name; rules = rules }; properties = []; results = results }
      ∷ [];
}

-- A location in a file.
abbrev pub file_location : String → Option ℕ → Location
file_location uri line = record {
  physical_location = some (record {
    artifact_location = some (record { uri = some uri });
    region = some (record { start_line = line; end_line = none });
  });
  logical_locations = [];
  properties = [];
}

-- A location that only its properties describe.
abbrev pub property_location : JsonDict → Location
property_location properties = record {
  physical_location = none;
  logical_locations = [];
  properties = properties;
}

-- The rules of the results, of each identifier the first (`rules.setdefault`).
unfoldable pub distinct_rules : List ReportingDescriptor → List ReportingDescriptor
distinct_rules rules = map (λ e. e.1) (collect_rules rules [])
  where
    collect_rules : List ReportingDescriptor → Dict ReportingDescriptor → Dict ReportingDescriptor
    collect_rules [] seen = seen
    collect_rules (r ∷ rs) seen = collect_rules rs (set_default r.id r seen)

-- `run_native` of an adapter that has none.
abbrev pub not_implemented : String → Exn
not_implemented name = other_error (name <> " is not a native adapter")

-- `str(request.target["base_url"])`
unfoldable pub base_url_of : ScanRequest → Try String
base_url_of request = elim request.target.base_url [
  | none ↦ raise (key_error "base_url")
  | some url ↦ ok url
]

-- `TABLE.get(key, default)`
abbrev pub entry_or : Dict String → String → String → String
entry_or table key default = elim (lookup key table) [ none ↦ default | some t ↦ t ]

-- `"".join(ch for ch in s if ch.isdigit())`
unfoldable pub digits_of : String → String
digits_of String.[] = ""
digits_of (String.◌∷◌ c s) =
    let rest = digits_of s in if leb 48 (code c) && leb (code c) 57 then String.◌∷◌ c rest else rest

-- The arguments for the option `rate_limit`, if it has digits.
unfoldable pub rate_args : Runtime → String → JsonDict → List String
unfolding digits_of format value_at
rate_args rt flag options =
    let rate = value_at "rate_limit" options in
    let digits = digits_of (format rt rate) in
    if json_truthy rate && not (digits == "") then flag ∷ digits ∷ [] else []
