-- ===== src/Adapters/Dast/Vigolium.antt =====
-- adapters/dast/vigolium/adapter.py: the deterministic mode of the web scanner.
use omniscan.Prelude.{String, ◌==◌, true, false, not, ◌||◌}
use omniscan.Prelude.{List, [], ◌∷◌, ◌++◌, is_nil, if◌then◌else◌}
use omniscan.Prelude.Text.{strip, lower, split_lines, begins_with, truthy}
use omniscan.Prelude.Dict.{Dict, has_key}
use omniscan.Prelude.Try.{Try, ok, raise, value_error, raise_if, ◌>>=◌, ◌>>◌}
use omniscan.Python.Json.{Json, JsonDict, null, str, as_dict, value_at, or_else}
use omniscan.Core.Enums.{dast}
use omniscan.Core.Redact.{redact}
use omniscan.Normalize.Fingerprint.{format}
use omniscan.Normalize.Sarif.{Result, SarifLog}
use omniscan.Adapters.Base.{ScanRequest, ContainerSpec, ScannerAdapter, target}
use omniscan.Adapters.Tools.{
  Libraries, require_class, one_run, property_location, not_implemented, base_url_of, rate_args,
  entry_or,
}

abbrev pub image : String
image = "omniscan/vigolium:0.1.0"

-- `_SEVERITY_LEVEL`
abbrev pub severity_level : Dict String
severity_level =
    ("critical", "error")
    ∷ ("high", "error")
    ∷ ("medium", "warning")
    ∷ ("low", "note")
    ∷ ("info", "note")
    ∷ ("informational", "note")
    ∷ []

-- `_field`: the first of the names with a value that is not null.
unfoldable pub field_of : JsonDict → List String → Json
field_of item [] = null
field_of item (n ∷ names) =
    let rest = field_of item names in elim (value_at n item) [ null ↦ rest | v ↦ v ]

unfoldable pub validate : Libraries → ScanRequest → Try (Unit {0})
validate lib request = do
  require_class request dast "vigolium only handles DAST"
  raise_if (not (truthy request.target.base_url))
      (value_error "vigolium requires a target base_url")
  raise_if (is_nil request.scope_allow) (value_error "DAST requires an explicit scope allowlist")

unfoldable pub invocation_of : Libraries → ScanRequest → String → ContainerSpec
unfolding rate_args
invocation_of lib request base_url = record {
  image = image;
  args =
      ("scan" ∷ "--target" ∷ base_url ∷ "--format" ∷ "jsonl" ∷ "-o" ∷ "/dev/stdout" ∷ "--no-color"
        ∷ [])
      ++ rate_args lib.runtime "--rate-limit" request.options;
  env = ("HOME", "/tmp") ∷ [];
  secret_refs = [];
  mounts = [];
  read_only_root = true;
  writable_tmp = true;
  network = target;
  limits = record { cpu = 2000; memory_mb = 4096; timeout_seconds = 3600 };
  success_exit_codes = 0 ∷ 1 ∷ [];
}

unfoldable pub invocation : Libraries → ScanRequest → Try ContainerSpec
unfolding base_url_of
invocation lib request = do base_url ← base_url_of request; ok (invocation_of lib request base_url)

text_or_null : String → Json
text_or_null s = if s == "" then null else str s

unfoldable pub result_of : Libraries → JsonDict → Result
unfolding field_of or_else format redact text_or_null
result_of lib item =
    let show = λ (j : Json). format lib.runtime (redact lib.sub j) in
    let severity =
      lower (
        format lib.runtime (or_else (field_of item ("severity" ∷ "Severity" ∷ [])) (str "info"))) in
    let module_name =
      format lib.runtime (
        or_else (field_of item ("module" ∷ "Module" ∷ "name" ∷ "template" ∷ []))
          (str "vigolium")) in
    let url = show (or_else (field_of item ("url" ∷ "URL" ∷ "matched_at" ∷ [])) (str "")) in
    record {
      rule_id = module_name;
      level = entry_or severity_level severity "note";
      message =
          show (or_else (field_of item ("description" ∷ "Description" ∷ [])) (str module_name));
      locations =
          property_location (
            ("url", str url)
            ∷ ("route", str url)
            ∷ ("param", field_of item ("parameter" ∷ "Parameter" ∷ "param" ∷ []))
            ∷ [])
          ∷ [];
      properties =
          ("severity", str (if has_key severity severity_level then severity else "info"))
          ∷ ("confidence", field_of item ("confidence" ∷ "Confidence" ∷ []))
          ∷ (
            "evidence",
            text_or_null (show (or_else (field_of item ("evidence" ∷ "Evidence" ∷ [])) (str ""))),
          )
          ∷ [];
    }

-- The loop over the lines; one that starts no object, or is no JSON, is passed over.
unfoldable pub read_lines : Libraries → List String → Try (List Result)
unfolding result_of begins_with
read_lines lib [] = ok []
read_lines lib (line ∷ lines) =
    let rest = read_lines lib lines in
    if strip line == "" || not (begins_with (strip line) "{")
    then rest
    else elim (lib.loads (strip line)) [
      | raise e ↦ rest
      | ok item ↦ (do d ← as_dict item; rs ← rest; ok (result_of lib d ∷ rs))
    ]

unfoldable pub parse : Libraries → String → Try SarifLog
unfolding read_lines split_lines
parse lib raw = do results ← read_lines lib (split_lines raw); ok (one_run "vigolium" [] results)

abbrev pub adapter : Libraries → ScannerAdapter
adapter lib = record {
  name = "vigolium";
  scan_class = dast;
  capabilities = "spider" ∷ "active" ∷ "passive" ∷ "content-discovery" ∷ "high-fidelity" ∷ [];
  native = false;
  validate_inputs = validate lib;
  build_invocation = λ request. invocation lib request;
  parse_output = parse lib;
  run_native = λ request. raise (not_implemented "vigolium");
}
