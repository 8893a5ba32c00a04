-- ===== src/Adapters/Dast/Zap.antt =====
-- adapters/dast/zap/adapter.py: the web scanner, whose report is SARIF.
use omniscan.Prelude.{String, ◌==◌, true, false, not, Option, none, some}
use omniscan.Prelude.{List, [], ◌∷◌, map, is_nil, if◌then◌else◌}
use omniscan.Prelude.Text.{strip, truthy}
use omniscan.Prelude.Dict.{Dict, insert}
use omniscan.Prelude.Try.{Try, ok, raise, value_error, raise_if, ◌>>=◌, ◌>>◌}
use omniscan.Python.Json.{str, get_or, value_at, json_truthy}
use omniscan.Core.Enums.{dast}
use omniscan.Core.Redact.{redact}
use omniscan.Normalize.Fingerprint.{format}
use omniscan.Normalize.Sarif.{Location, Result, ReportingDescriptor, SarifLog}
use omniscan.Adapters.Base.{ScanRequest, ContainerSpec, ScannerAdapter, target}
use omniscan.Adapters.Tools.{
  Libraries, require_class, map_results, no_sarif, not_implemented, base_url_of,
}

abbrev pub image : String
image = "omniscan/zap:0.1.0"

unfoldable pub validate : Libraries → ScanRequest → Try (Unit {0})
validate lib request = do
  require_class request dast "zap only handles DAST"
  raise_if (not (truthy request.target.base_url)) (value_error "zap requires a target base_url")
  raise_if (is_nil request.scope_allow) (value_error "DAST requires an explicit scope allowlist")

unfoldable pub auth_refs : Option String → Dict String
auth_refs none = []
auth_refs (some r) = if r == "" then [] else ("ZAP_AUTH", r) ∷ []

unfoldable pub invocation_of : Libraries → ScanRequest → String → ContainerSpec
unfolding auth_refs format get_or
invocation_of lib request base_url = record {
  image = image;
  args =
      "--target"
      ∷ base_url
      ∷ "--attack-strength"
      ∷ format lib.runtime (get_or "attack_strength" (str "medium") request.options)
      ∷ "--format"
      ∷ "sarif"
      ∷ [];
  env = ("HOME", "/tmp") ∷ [];
  secret_refs = auth_refs request.auth_ref;
  mounts = [];
  read_only_root = false;
  writable_tmp = true;
  network = target;
  limits = record { cpu = 2000; memory_mb = 4096; timeout_seconds = 3600 };
  success_exit_codes = 0 ∷ 1 ∷ 2 ∷ [];
}

unfoldable pub invocation : Libraries → ScanRequest → Try ContainerSpec
unfolding base_url_of
invocation lib request = do base_url ← base_url_of request; ok (invocation_of lib request base_url)

-- `loc.properties["url"] = str(redact(loc.properties["url"]))`
unfoldable pub redact_url : Libraries → Location → Location
unfolding value_at format redact
redact_url lib loc =
    let url = value_at "url" loc.properties in
    if json_truthy url
    then record loc {
      properties = insert "url" (str (format lib.runtime (redact lib.sub url))) loc.properties;
    }
    else loc

unfoldable pub adapt : Libraries → List ReportingDescriptor → Result → Result
unfolding redact_url
adapt lib rules result = record result { locations = map (redact_url lib) result.locations }

unfoldable pub parse : Libraries → String → Try SarifLog
unfolding adapt map_results
parse lib raw =
    if strip raw == ""
    then ok no_sarif
    else do sarif ← lib.load_sarif raw; ok (map_results (adapt lib) sarif)

abbrev pub adapter : Libraries → ScannerAdapter
adapter lib = record {
  name = "zap";
  scan_class = dast;
  capabilities = "spider" ∷ "passive" ∷ "active" ∷ "auth" ∷ "sarif-native" ∷ [];
  native = false;
  validate_inputs = validate lib;
  build_invocation = λ request. invocation lib request;
  parse_output = parse lib;
  run_native = λ request. raise (not_implemented "zap");
}
