-- ===== src/Adapters/Sast/Bandit.antt =====
-- adapters/sast/bandit/adapter.py: the Python linter, offline, whose JSON becomes SARIF.
use omniscan.Prelude.{String, ◌==◌, true, false, Option, none, some}
use omniscan.Prelude.{[], ◌∷◌, map, if◌then◌else◌}
use omniscan.Prelude.Text.{strip, upper, remove_prefix}
use omniscan.Prelude.Dict.{Dict, lookup}
use omniscan.Prelude.Try.{Try, ok, raise, value_error, raise_if, ◌>>=◌, ◌>>◌}
use omniscan.Python.Json.{
  Json, Items, JsonDict, null, str, arr, obj, end, as_dict, as_list, get_or, value_at, or_else,
}
use omniscan.Core.Enums.{sast}
use omniscan.Normalize.Fingerprint.{format}
use omniscan.Normalize.Sarif.{Result, ReportingDescriptor, SarifLog}
use omniscan.Adapters.Base.{ScanRequest, ContainerSpec, ScannerAdapter, none_}
use omniscan.Adapters.Tools.{
  Libraries, require_class, path_text, no_checkout, item_at, as_text, as_line, map_try, no_sarif,
  one_run, file_location, distinct_rules, not_implemented,
}

abbrev pub image : String
image = "omniscan/bandit:0.1.0"

-- `_SEVERITY_LEVEL`, `_SEVERITY_TEXT`
abbrev pub severity_level : Dict String
severity_level = ("HIGH", "error") ∷ ("MEDIUM", "warning") ∷ ("LOW", "note") ∷ []

abbrev pub severity_text : Dict String
severity_text = ("HIGH", "high") ∷ ("MEDIUM", "medium") ∷ ("LOW", "low") ∷ []

unfoldable pub validate : Libraries → ScanRequest → Try (Unit {0})
unfolding no_checkout
validate lib request = do
  require_class request sast "bandit only handles SAST"
  raise_if (no_checkout lib request.workspace_path)
      (value_error "bandit requires a checked-out workspace path")

unfoldable pub invocation : Libraries → ScanRequest → ContainerSpec
unfolding path_text
invocation lib request = record {
  image = image;
  args = "-r" ∷ "/src" ∷ "-f" ∷ "json" ∷ "-q" ∷ [];
  env = [];
  secret_refs = [];
  mounts = (path_text request.workspace_path, "/src") ∷ [];
  read_only_root = true;
  writable_tmp = true;
  network = none_;
  limits = record { cpu = 1000; memory_mb = 2048; timeout_seconds = 600 };
  success_exit_codes = 0 ∷ 1 ∷ [];
}

abbrev text_of : Dict String → String → String → String
text_of table key default = elim (lookup key table) [ none ↦ default | some t ↦ t ]

-- `(item.get("issue_cwe") or {}).get("id")`
cwe_of : Json → Try Json
unfolding or_else as_dict value_at
cwe_of cwe = do d ← as_dict (or_else cwe (obj end)); ok (value_at "id" d)

optional_text : Json → Try (Option String)
unfolding as_text
optional_text null = ok none
optional_text j = do s ← as_text j; ok (some s)

-- One round of the loop over the results.
unfoldable pub result_of : Libraries → JsonDict → Try (ReportingDescriptor × Result)
unfolding format get_or value_at item_at as_text as_line cwe_of optional_text remove_prefix
result_of lib item = do
  test_id ← item_at "test_id" item
  let severity = upper (format lib.runtime (get_or "issue_severity" (str "LOW") item))
  rid ← as_text test_id
  text ← as_text (get_or "issue_text" test_id item)
  name ← optional_text (value_at "test_name" item)
  let uri = remove_prefix "/src/" (format lib.runtime (get_or "filename" (str "") item))
  line ← as_line lib (value_at "line_number" item)
  cwe ← cwe_of (value_at "issue_cwe" item)
  ok (
    record {
      id = rid;
      name = name;
      short_description = some text;
      full_description = none;
      default_configuration = [];
      properties = [];
    },
    record {
      rule_id = rid;
      level = text_of severity_level severity "note";
      message = text;
      locations = file_location uri line ∷ [];
      properties =
          ("severity", str (text_of severity_text severity "low"))
          ∷ ("cwe", cwe)
          ∷ ("confidence", value_at "issue_confidence" item)
          ∷ [];
    },
  )

unfoldable pub parse : Libraries → String → Try SarifLog
unfolding result_of map_try distinct_rules as_dict as_list get_or
parse lib raw = if strip raw == "" then ok no_sarif else do
  report ← lib.loads raw
  d ← as_dict report
  items ← as_list (get_or "results" (arr Items.nil) d)
  found ← map_try (λ j. as_dict j >>= result_of lib) items
  ok (one_run "bandit" (distinct_rules (map (λ x. x.0) found)) (map (λ x. x.1) found))

abbrev pub adapter : Libraries → ScannerAdapter
adapter lib = record {
  name = "bandit";
  scan_class = sast;
  capabilities = "python" ∷ "ast" ∷ "cwe" ∷ [];
  native = false;
  validate_inputs = validate lib;
  build_invocation = λ request. ok (invocation lib request);
  parse_output = parse lib;
  run_native = λ request. raise (not_implemented "bandit");
}
