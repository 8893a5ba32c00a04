-- ===== src/Adapters/Sast/Clair.antt =====
-- adapters/sast/clair/adapter.py: packages of a container image, matched by a Clair service.
use omniscan.Prelude.{String, ◌<>◌, ◌==◌, Bool, true, false, not, ◌||◌, Option, none, some}
use omniscan.Prelude.{[], ◌∷◌, map, if◌then◌else◌}
use omniscan.Prelude.Text.{strip, take_text, truthy}
use omniscan.Prelude.Dict.{Dict, lookup}
use omniscan.Prelude.Try.{Try, ok, raise, value_error, key_error, raise_if, ◌>>=◌, ◌>>◌}
use omniscan.Python.Json.{Json, JsonDict, str, obj, end, as_dict, get_or, value_at, or_else}
use omniscan.Core.Enums.{sast}
use omniscan.Normalize.Fingerprint.{format}
use omniscan.Normalize.Sarif.{Result, ReportingDescriptor, SarifLog}
use omniscan.Adapters.Base.{ScanRequest, ContainerSpec, ScannerAdapter, egress}
use omniscan.Adapters.Tools.{
  Libraries, require_class, as_text, map_try, no_sarif, one_run, property_location, distinct_rules,
  not_implemented,
}

abbrev pub image : String
image = "omniscan/clairctl:0.1.0"

abbrev config_path : Libraries → String
config_path lib = lib.root <> "/deploy/scanners/clair/config.yaml"

-- `_SEVERITY`, `_LEVEL`
abbrev pub severity_table : Dict String
severity_table =
    ("Critical", "critical")
    ∷ ("High", "high")
    ∷ ("Medium", "medium")
    ∷ ("Low", "low")
    ∷ ("Negligible", "info")
    ∷ ("Unknown", "info")
    ∷ []

abbrev pub level_table : Dict String
level_table =
    ("critical", "error")
    ∷ ("high", "error")
    ∷ ("medium", "warning")
    ∷ ("low", "note")
    ∷ ("info", "note")
    ∷ []

abbrev is_image : Option String → Bool
is_image none = false
is_image (some t) = t == "image"

unfoldable pub validate : Libraries → ScanRequest → Try (Unit {0})
validate lib request = do
  require_class request sast "clair only handles SAST (container-image SCA)"
  raise_if (not (is_image request.source.type) || not (truthy request.source.image))
      (value_error "clair requires source.type='image' and source.image (a container ref)")

-- `str(options.get("clair_host") or os.environ.get("OMNISCAN_CLAIR_URL", ...))`
clair_host : Libraries → JsonDict → String
unfolding format or_else value_at
clair_host lib options =
    let from_env : String = elim (lib.environ "OMNISCAN_CLAIR_URL") [
      | none ↦ "http://clair:6060"
      | some u ↦ u
    ] in
    format lib.runtime (or_else (value_at "clair_host" options) (str from_env))

unfoldable pub registry_auth : Option String → Dict String
registry_auth none = []
registry_auth (some r) = if r == "" then [] else ("CLAIRCTL_REGISTRY_AUTH", r) ∷ []

unfoldable pub invocation_of : Libraries → ScanRequest → Option String → Try ContainerSpec
unfolding clair_host registry_auth
invocation_of lib request none = raise (key_error "image")
invocation_of lib request (some image_ref) = ok (record {
  image = image;
  args = "--config" ∷ "/etc/clairctl/config.yaml" ∷ "report" ∷ "--out" ∷ "json" ∷ image_ref ∷ [];
  env = ("CLAIR_API", clair_host lib request.options) ∷ ("HOME", "/tmp") ∷ [];
  secret_refs = registry_auth request.auth_ref;
  mounts = (config_path lib, "/etc/clairctl/config.yaml") ∷ [];
  read_only_root = true;
  writable_tmp = true;
  network = egress;
  limits = record { cpu = 2000; memory_mb = 2048; timeout_seconds = 1200 };
  success_exit_codes = 0 ∷ [];
})

unfoldable pub invocation : Libraries → ScanRequest → Try ContainerSpec
unfolding invocation_of
invocation lib request = invocation_of lib request request.source.image

abbrev entry_of : Dict String → String → String → String
entry_of table key default = elim (lookup key table) [ none ↦ default | some t ↦ t ]

-- One round of the loop over the vulnerabilities, in the image `scanned`.
unfoldable pub result_of : Libraries → Json → JsonDict → Try (ReportingDescriptor × Result)
unfolding format get_or value_at or_else as_text as_dict take_text strip
result_of lib scanned vuln = do
  let name_value =
      or_else (or_else (value_at "name" vuln) (value_at "id" vuln)) (str "vulnerability")
  let sev_text =
      entry_of severity_table
        (format lib.runtime (get_or "normalized_severity" (str "Unknown") vuln)) "info"
  pkg ← as_dict (or_else (get_or "package" (obj end) vuln) (obj end))
  name ← as_text name_value
  desc ← as_text (or_else (value_at "description" vuln) name_value)
  ok (
    record {
      id = name;
      name = none;
      short_description = some (take_text 160 desc);
      full_description = none;
      default_configuration = [];
      properties = [];
    },
    record {
      rule_id = name;
      level = entry_of level_table sev_text "note";
      message = strip (
          name
          <> " in "
          <> format lib.runtime (get_or "name" (str "?") pkg)
          <> " "
          <> format lib.runtime (get_or "version" (str "") pkg));
      locations =
          property_location (
            ("image", scanned)
            ∷ ("package", value_at "name" pkg)
            ∷ ("installed_version", value_at "version" pkg)
            ∷ ("fixed_in_version", value_at "fixed_in_version" vuln)
            ∷ ("link", value_at "links" vuln)
            ∷ [])
          ∷ [];
      properties = ("severity", str sev_text) ∷ [];
    },
  )

unfoldable pub parse : Libraries → String → Try SarifLog
unfolding result_of map_try distinct_rules as_dict get_or value_at or_else
parse lib raw = if strip raw == "" then ok no_sarif else do
  value ← lib.loads raw
  report ← as_dict value
  let scanned =
      or_else (or_else (value_at "manifest_hash" report) (value_at "name" report)) (str "image")
  vulns ← as_dict (get_or "vulnerabilities" (obj end) report)
  found ← map_try (λ e. as_dict e.1 >>= result_of lib scanned) vulns
  ok (one_run "clair" (distinct_rules (map (λ x. x.0) found)) (map (λ x. x.1) found))

abbrev pub adapter : Libraries → ScannerAdapter
adapter lib = record {
  name = "clair";
  scan_class = sast;
  capabilities = "sca" ∷ "container-image" ∷ "cve" ∷ "os-packages" ∷ [];
  native = false;
  validate_inputs = validate lib;
  build_invocation = λ request. invocation lib request;
  parse_output = parse lib;
  run_native = λ request. raise (not_implemented "clair");
}
