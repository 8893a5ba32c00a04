-- ===== src/Adapters/Sast/Codeql.antt =====
-- adapters/sast/codeql/adapter.py: deep dataflow analysis without network.
use omniscan.Prelude.{ℕ, String, ◌<>◌, ◌==◌, Bool, true, false, not, ◌&&◌, Option, none, some}
use omniscan.Prelude.{List, [], ◌∷◌, ◌++◌, map, contains, if◌then◌else◌}
use omniscan.Prelude.Text.{strip}
use omniscan.Prelude.Dict.{insert}
use omniscan.Prelude.Try.{Try, ok, raise, value_error, raise_if, ◌>>=◌, ◌>>◌}
use omniscan.Python.Json.{Json, JsonDict, num, str, get_or, value_at, json_truthy}
use omniscan.Core.Enums.{sast}
use omniscan.Normalize.Fingerprint.{format}
use omniscan.Normalize.Severity.{to_float}
use omniscan.Normalize.Runtime.{Runtime}
use omniscan.Normalize.Sarif.{Result, ReportingDescriptor, SarifLog}
use omniscan.Adapters.Base.{ScanRequest, ContainerSpec, ScannerAdapter, none_}
use omniscan.Adapters.Tools.{
  Libraries, require_class, path_text, no_checkout, relative_location, map_results, no_sarif,
  not_implemented,
}

abbrev pub image : String
image = "omniscan/codeql:0.1.0"

-- `_SUPPORTED_LANGS`
abbrev pub supported_langs : List String
supported_langs =
    "python" ∷ "javascript" ∷ "typescript" ∷ "java" ∷ "go" ∷ "ruby" ∷ "csharp" ∷ "cpp" ∷ []

-- `lang and lang not in _SUPPORTED_LANGS`
unsupported : Json → Bool
unsupported (str s) = not (s == "") && not (contains supported_langs s)
unsupported j = json_truthy j

unfoldable pub validate : Libraries → ScanRequest → Try (Unit {0})
unfolding no_checkout unsupported format value_at
validate lib request = do
  require_class request sast "codeql only handles SAST"
  raise_if (no_checkout lib request.workspace_path)
      (value_error "codeql requires a checked-out workspace path")
  let lang = value_at "language" request.options
  raise_if (unsupported lang)
      (value_error ("unsupported codeql language: " <> format lib.runtime lang))

unfoldable pub invocation : Libraries → ScanRequest → ContainerSpec
unfolding path_text format get_or
invocation lib request =
    let lang = format lib.runtime (get_or "language" (str "python") request.options) in
    let build_cmd = format lib.runtime (get_or "build_cmd" (str "") request.options) in
    let args = "--src" ∷ "/src" ∷ "--language" ∷ lang ∷ [] in
    record {
      image = image;
      args = if build_cmd == "" then args else args ++ "--build-command" ∷ build_cmd ∷ [];
      env = ("HOME", "/tmp") ∷ [];
      secret_refs = [];
      mounts = (path_text request.workspace_path, "/src") ∷ [];
      read_only_root = false;
      writable_tmp = true;
      network = none_;
      limits = record { cpu = 4000; memory_mb = 8192; timeout_seconds = 3600 };
      success_exit_codes = 0 ∷ [];
    }

-- `{r.id: r.properties.get("security-severity") for r in rules}`
unfoldable pub scores_of : List ReportingDescriptor → JsonDict → JsonDict
unfolding value_at
scores_of [] scores = scores
scores_of (r ∷ rules) scores =
    scores_of rules (insert r.id (value_at "security-severity" r.properties) scores)

abbrev with_score : Option ℕ → Result → Result
with_score none result = result
with_score (some score) result = record result {
  properties = insert "cvss" (num score) result.properties;
}

unfoldable pub adapt : Runtime → List ReportingDescriptor → Result → Result
unfolding relative_location value_at
adapt rt rules result =
    let score = value_at result.rule_id (scores_of rules []) in
    let scored = with_score (to_float rt.float_text score) result in
    record scored { locations = map (relative_location "/src/") scored.locations }

unfoldable pub parse : Libraries → String → Try SarifLog
unfolding adapt map_results
parse lib raw =
    if strip raw == ""
    then ok no_sarif
    else do sarif ← lib.load_sarif raw; ok (map_results (adapt lib.runtime) sarif)

abbrev pub adapter : Libraries → ScannerAdapter
adapter lib = record {
  name = "codeql";
  scan_class = sast;
  capabilities = "dataflow" ∷ "taint" ∷ "deep" ∷ "sarif-native" ∷ [];
  native = false;
  validate_inputs = validate lib;
  build_invocation = λ request. ok (invocation lib request);
  parse_output = parse lib;
  run_native = λ request. raise (not_implemented "codeql");
}
