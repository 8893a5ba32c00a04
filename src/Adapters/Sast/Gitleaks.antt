-- ===== src/Adapters/Sast/Gitleaks.antt =====
-- adapters/sast/gitleaks/adapter.py: secret detection, with the secrets redacted by the scanner.
use omniscan.Prelude.{String, ◌==◌, true, false}
use omniscan.Prelude.{List, [], ◌∷◌, map, if◌then◌else◌}
use omniscan.Prelude.Text.{strip}
use omniscan.Prelude.Dict.{set_default}
use omniscan.Prelude.Try.{Try, ok, raise, value_error, raise_if, ◌>>=◌, ◌>>◌}
use omniscan.Python.Json.{str}
use omniscan.Core.Enums.{sast}
use omniscan.Normalize.Sarif.{Result, ReportingDescriptor, SarifLog}
use omniscan.Adapters.Base.{ScanRequest, ContainerSpec, ScannerAdapter, none_}
use omniscan.Adapters.Tools.{
  Libraries, require_class, path_text, no_checkout, relative_location, map_results, no_sarif,
  not_implemented,
}

abbrev pub image : String
image = "ghcr.io/gitleaks/gitleaks:v8.21.2"

unfoldable pub validate : Libraries → ScanRequest → Try (Unit {0})
unfolding no_checkout
validate lib request = do
  require_class request sast "gitleaks only handles SAST"
  raise_if (no_checkout lib request.workspace_path)
      (value_error "gitleaks requires a checked-out workspace path")

unfoldable pub invocation : Libraries → ScanRequest → ContainerSpec
unfolding path_text
invocation lib request = record {
  image = image;
  args =
      "dir" ∷ "/src" ∷ "--report-format" ∷ "sarif" ∷ "--report-path" ∷ "/dev/stdout" ∷ "--redact"
      ∷ "--no-banner" ∷ "--exit-code" ∷ "1" ∷ [];
  env = ("HOME", "/tmp") ∷ [];
  secret_refs = [];
  mounts = (path_text request.workspace_path, "/src") ∷ [];
  read_only_root = true;
  writable_tmp = true;
  network = none_;
  limits = record { cpu = 1000; memory_mb = 2048; timeout_seconds = 600 };
  success_exit_codes = 0 ∷ 1 ∷ [];
}

-- Secrets are high by policy, unless the scanner says otherwise.
unfoldable pub adapt : List ReportingDescriptor → Result → Result
unfolding relative_location
adapt rules result = record result {
  level = "error";
  properties = set_default "severity" (str "high") result.properties;
  locations = map (relative_location "/src/") result.locations;
}

unfoldable pub parse : Libraries → String → Try SarifLog
unfolding adapt map_results
parse lib raw =
    if strip raw == ""
    then ok no_sarif
    else do sarif ← lib.load_sarif raw; ok (map_results adapt sarif)

abbrev pub adapter : Libraries → ScannerAdapter
adapter lib = record {
  name = "gitleaks";
  scan_class = sast;
  capabilities = "secret-detection" ∷ "redacted-output" ∷ [];
  native = false;
  validate_inputs = validate lib;
  build_invocation = λ request. ok (invocation lib request);
  parse_output = parse lib;
  run_native = λ request. raise (not_implemented "gitleaks");
}
