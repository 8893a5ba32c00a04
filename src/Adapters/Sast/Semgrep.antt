-- ===== src/Adapters/Sast/Semgrep.antt =====
-- adapters/sast/semgrep/adapter.py: semgrep in a container without network, on a vendored ruleset.
use omniscan.Prelude.{String, ◌<>◌, ◌==◌, true, false, not, Option, none, some}
use omniscan.Prelude.{List, [], ◌∷◌, map, if◌then◌else◌}
use omniscan.Prelude.Text.{strip}
use omniscan.Prelude.Dict.{Dict, lookup, insert}
use omniscan.Prelude.Try.{Try, ok, raise, value_error, raise_if, ◌>>=◌, ◌>>◌}
use omniscan.Python.Json.{str, get_or}
use omniscan.Core.Enums.{sast}
use omniscan.Normalize.Fingerprint.{format}
use omniscan.Normalize.Runtime.{Runtime}
use omniscan.Normalize.Sarif.{Result, ReportingDescriptor, Run, SarifLog}
use omniscan.Adapters.Base.{ScanRequest, ContainerSpec, ScannerAdapter, none_}
use omniscan.Adapters.Tools.{
  Libraries, require_class, require_workspace, path_text, no_checkout, relative_location,
  map_results, not_implemented,
}

abbrev pub image : String
image = "semgrep/semgrep:1.97.0"

abbrev rules_path : Libraries → String
rules_path lib = lib.root <> "/deploy/scanners/semgrep/rules.yml"

unfoldable pub validate : Libraries → ScanRequest → Try (Unit {0})
unfolding no_checkout
validate lib request = do
  require_class request sast "semgrep only handles SAST"
  require_workspace request "semgrep requires a checked-out workspace path"
  raise_if (no_checkout lib request.workspace_path)
      (value_error "workspace_path does not exist or is not a directory")
  raise_if (not (lib.is_file (rules_path lib)))
      (value_error ("vendored ruleset missing: " <> rules_path lib))

unfoldable pub invocation : Libraries → ScanRequest → ContainerSpec
unfolding path_text
invocation lib request = record {
  image = image;
  args =
      "semgrep" ∷ "--sarif" ∷ "--config" ∷ "/rules.yml" ∷ "/src" ∷ "--quiet" ∷ "--no-git-ignore"
      ∷ "--metrics" ∷ "off" ∷ "--disable-version-check" ∷ [];
  env = ("HOME", "/tmp") ∷ ("SEMGREP_SEND_METRICS", "off") ∷ [];
  secret_refs = [];
  mounts = insert (rules_path lib) "/rules.yml" ((path_text request.workspace_path, "/src") ∷ []);
  read_only_root = true;
  writable_tmp = true;
  network = none_;
  limits = record { cpu = 2000; memory_mb = 4096; timeout_seconds = 900 };
  success_exit_codes = 0 ∷ 1 ∷ [];
}

-- The levels of the rules by their identifiers; of a repeated one the last counts.
rule_levels : Runtime → List ReportingDescriptor → Dict String → Dict String
unfolding format get_or
rule_levels rt [] levels = levels
rule_levels rt (r ∷ rules) levels =
    rule_levels rt rules
      (insert r.id (format rt (get_or "level" (str "warning") r.default_configuration)) levels)

promote_text : ReportingDescriptor → Option String → ReportingDescriptor
promote_text r none = r
promote_text r (some text) = if text == "" then r else record r { short_description = some text }

-- The full description becomes the short one.
unfoldable pub promote : ReportingDescriptor → ReportingDescriptor
unfolding promote_text
promote r = promote_text r r.full_description

abbrev with_level : Option String → Result → Result
with_level none result = result
with_level (some level) result = record result { level = level }

unfoldable pub adapt : Runtime → List ReportingDescriptor → Result → Result
unfolding rule_levels relative_location
adapt rt rules result =
    let leveled = with_level (lookup result.rule_id (rule_levels rt rules [])) result in
    record leveled { locations = map (relative_location "/src/") leveled.locations }

abbrev promote_run : Run → Run
promote_run run = record run {
  driver = record { name = run.driver.name; rules = map promote run.driver.rules };
}

unfoldable pub parse : Libraries → String → Try SarifLog
unfolding adapt promote map_results
parse lib raw = do
  raise_if (strip raw == "") (value_error "semgrep produced no output")
  sarif ← lib.load_sarif raw
  let adapted = map_results (adapt lib.runtime) sarif
  ok (record { runs = map promote_run adapted.runs })

abbrev pub adapter : Libraries → ScannerAdapter
adapter lib = record {
  name = "semgrep";
  scan_class = sast;
  capabilities = "pattern-match" ∷ "dataflow" ∷ "multi-language" ∷ "sarif-native" ∷ [];
  native = false;
  validate_inputs = validate lib;
  build_invocation = λ request. ok (invocation lib request);
  parse_output = parse lib;
  run_native = λ request. raise (not_implemented "semgrep");
}
