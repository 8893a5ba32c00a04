-- ===== src/Adapters/Dast/Nuclei.antt =====
-- adapters/dast/nuclei/adapter.py: template-based scanning of a running target.
use omniscan.Prelude.{String, ◌==◌, true, false, not}
use omniscan.Prelude.{List, [], ◌∷◌, ◌++◌, is_nil, if◌then◌else◌}
use omniscan.Prelude.Text.{strip, lower, split_lines, truthy}
use omniscan.Prelude.Dict.{Dict}
use omniscan.Prelude.Try.{Try, ok, raise, value_error, raise_if, ◌>>=◌, ◌>>◌}
use omniscan.Python.Json.{Json, JsonDict, str, obj, end, as_dict, get_or, value_at, or_else}
use omniscan.Core.Enums.{dast}
use omniscan.Core.Redact.{redact}
use omniscan.Normalize.Fingerprint.{format}
use omniscan.Normalize.Sarif.{Result, SarifLog}
use omniscan.Adapters.Base.{ScanRequest, ContainerSpec, ScannerAdapter, target}
use omniscan.Adapters.Tools.{
  Libraries, require_class, one_run, property_location, not_implemented, base_url_of, rate_args,
  entry_or,
}

abbrev pub image : String
image = "omniscan/nuclei:0.1.0"

-- `_SEVERITY_LEVEL`
abbrev pub severity_level : Dict String
severity_level =
    ("critical", "error")
    ∷ ("high", "error")
    ∷ ("medium", "warning")
    ∷ ("low", "note")
    ∷ ("info", "note")
    ∷ ("unknown", "note")
    ∷ []

unfoldable pub validate : Libraries → ScanRequest → Try (Unit {0})
validate lib request = do
  require_class request dast "nuclei only handles DAST"
  raise_if (not (truthy request.target.base_url)) (value_error "nuclei requires a target base_url")
  raise_if (is_nil request.scope_allow) (value_error "DAST requires an explicit scope allowlist")

unfoldable pub invocation_of : Libraries → ScanRequest → String → ContainerSpec
unfolding rate_args
invocation_of lib request base_url = record {
  image = image;
  args =
      ("-u" ∷ base_url ∷ "-t" ∷ "/omniscan-templates" ∷ "-jsonl" ∷ "-silent"
        ∷ "-disable-update-check" ∷ "-no-interactsh" ∷ "-omit-raw" ∷ "-omit-template" ∷ [])
      ++ rate_args lib.runtime "-rl" request.options;
  env = ("HOME", "/tmp") ∷ [];
  secret_refs = [];
  mounts = [];
  read_only_root = true;
  writable_tmp = true;
  network = target;
  limits = record { cpu = 2000; memory_mb = 2048; timeout_seconds = 1800 };
  success_exit_codes = 0 ∷ [];
}

unfoldable pub invocation : Libraries → ScanRequest → Try ContainerSpec
unfolding base_url_of
invocation lib request = do base_url ← base_url_of request; ok (invocation_of lib request base_url)

-- One finding of the scanner, with what is kept of it redacted.
unfoldable pub result_of : Libraries → JsonDict → Try Result
unfolding format get_or value_at or_else as_dict redact
result_of lib item = do
  info ← as_dict (get_or "info" (obj end) item)
  let show = λ (j : Json). format lib.runtime (redact lib.sub j)
  let severity = lower (format lib.runtime (get_or "severity" (str "info") info))
  let rule_id = format lib.runtime (get_or "template-id" (str "nuclei") item)
  let url = show (or_else (or_else (value_at "matched-at" item) (value_at "url" item)) (str ""))
  ok (record {
    rule_id = rule_id;
    level = entry_or severity_level severity "note";
    message = show (get_or "name" (str rule_id) info);
    locations =
        property_location (
          ("url", str url)
          ∷ ("route", str url)
          ∷ ("host", str (show (get_or "host" (str "") item)))
          ∷ ("param", value_at "matcher-name" item)
          ∷ [])
        ∷ [];
    properties = ("severity", str severity) ∷ [];
  })

-- The loop over the lines; one that is empty or no JSON is passed over.
unfoldable pub read_lines : Libraries → List String → Try (List Result)
unfolding result_of
read_lines lib [] = ok []
read_lines lib (line ∷ lines) =
    let rest = read_lines lib lines in
    if strip line == "" then rest else elim (lib.loads (strip line)) [
      | raise e ↦ rest
      | ok item ↦ (do d ← as_dict item; r ← result_of lib d; rs ← rest; ok (r ∷ rs))
    ]

unfoldable pub parse : Libraries → String → Try SarifLog
unfolding read_lines split_lines
parse lib raw = do results ← read_lines lib (split_lines raw); ok (one_run "nuclei" [] results)

abbrev pub adapter : Libraries → ScannerAdapter
adapter lib = record {
  name = "nuclei";
  scan_class = dast;
  capabilities = "template-based" ∷ "misconfig" ∷ "exposure" ∷ "cve" ∷ [];
  native = false;
  validate_inputs = validate lib;
  build_invocation = λ request. invocation lib request;
  parse_output = parse lib;
  run_native = λ request. raise (not_implemented "nuclei");
}
