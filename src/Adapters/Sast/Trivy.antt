-- ===== src/Adapters/Sast/Trivy.antt =====
-- adapters/sast/trivy/adapter.py: vulnerable dependencies; the one static class with egress.
use omniscan.Prelude.{ℕ, String, ◌==◌, true, false, Option, none, some}
use omniscan.Prelude.{List, [], ◌∷◌, if◌then◌else◌}
use omniscan.Prelude.Text.{strip}
use omniscan.Prelude.Dict.{Dict, lookup, insert}
use omniscan.Prelude.Try.{Try, ok, raise, ◌>>=◌, ◌>>◌}
use omniscan.Python.Json.{num, value_at}
use omniscan.Core.Enums.{sast}
use omniscan.Normalize.Severity.{to_float}
use omniscan.Normalize.Runtime.{Runtime}
use omniscan.Normalize.Sarif.{Result, ReportingDescriptor, SarifLog}
use omniscan.Adapters.Base.{ScanRequest, ContainerSpec, ScannerAdapter, egress}
use omniscan.Adapters.Tools.{
  Libraries, require_class, require_workspace, path_text, map_results, no_sarif, not_implemented,
}

abbrev pub image : String
image = "aquasec/trivy:0.58.1"

unfoldable pub validate : Libraries → ScanRequest → Try (Unit {0})
validate lib request = do
  require_class request sast "trivy only handles SAST (SCA)"
  require_workspace request "trivy requires a checked-out workspace path"

unfoldable pub invocation : Libraries → ScanRequest → ContainerSpec
unfolding path_text
invocation lib request = record {
  image = image;
  args = "fs" ∷ "--scanners" ∷ "vuln" ∷ "--format" ∷ "sarif" ∷ "--quiet" ∷ "/src" ∷ [];
  env = ("HOME", "/tmp") ∷ [];
  secret_refs = [];
  mounts = (path_text request.workspace_path, "/src") ∷ [];
  read_only_root = true;
  writable_tmp = true;
  network = egress;
  limits = record { cpu = 2000; memory_mb = 4096; timeout_seconds = 900 };
  success_exit_codes = 0 ∷ [];
}

add_score : Option ℕ → String → Dict ℕ → Dict ℕ
add_score none rule_id scores = scores
add_score (some score) rule_id scores = insert rule_id score scores

-- `cvss_by_rule`: the scores that can be read.
unfoldable pub cvss_by_rule : Runtime → List ReportingDescriptor → Dict ℕ → Dict ℕ
unfolding add_score value_at
cvss_by_rule rt [] scores = scores
cvss_by_rule rt (rule ∷ rules) scores = cvss_by_rule rt rules (
    add_score (to_float rt.float_text (value_at "security-severity" rule.properties)) rule.id
      scores)

abbrev with_cvss : Option ℕ → Result → Result
with_cvss none result = result
with_cvss (some score) result = record result {
  properties = insert "cvss" (num score) result.properties;
}

unfoldable pub lift_score : Runtime → List ReportingDescriptor → Result → Result
lift_score rt rules result = with_cvss (lookup result.rule_id (cvss_by_rule rt rules [])) result

unfoldable pub parse : Libraries → String → Try SarifLog
unfolding lift_score map_results
parse lib raw =
    if strip raw == ""
    then ok no_sarif
    else do sarif ← lib.load_sarif raw; ok (map_results (lift_score lib.runtime) sarif)

abbrev pub adapter : Libraries → ScannerAdapter
adapter lib = record {
  name = "trivy";
  scan_class = sast;
  capabilities = "sca" ∷ "cve" ∷ "dependencies" ∷ "sarif-native" ∷ [];
  native = false;
  validate_inputs = validate lib;
  build_invocation = λ request. ok (invocation lib request);
  parse_output = parse lib;
  run_native = λ request. raise (not_implemented "trivy");
}
