-- ===== src/Tests/Scanners.antt =====
-- The theorems of the scanner adapters and of redaction at concrete inputs.
use omniscan.Prelude.{
  ℕ, ◌*◌, String, ◌≡◌, refl, ap, ◌==◌, true, none, some, List, [], ◌∷◌, map, All, arith,
  if◌then◌else◌,
}
use Prim.Native.Nat.{◌/◌}
use omniscan.Prelude.Table.{find_by}
use omniscan.Prelude.Try.{Try, ok, raise, value_error, backend_unavailable}
use omniscan.Python.Json.{Json, Items, Fields, null, boolean, num, str, arr, obj, end, dict_of}
use omniscan.Core.Enums.{sast, dast}
use omniscan.Core.Redact.{redact}
use omniscan.Core.Redact.Laws.{Step, item, member, at, Shown, redact-Shown}
use omniscan.Prelude.Dict.{lookup}
use omniscan.Normalize.Severity.{to_float}
use omniscan.Normalize.Sarif.{SarifLog}
use omniscan.Adapters.Base.{ScanRequest, ContainerSpec}
use omniscan.Adapters.Registry.{get}
use omniscan.Adapters.Builtin.{Host, builtins}
use omniscan.Adapters.Builtin.Guarded.{Guarded, get-Guarded}
use omniscan.Adapters.Tools.{Libraries, one_run, distinct_rules, workspace_or_dot}
use omniscan.Adapters.Dast.Zap
use omniscan.Adapters.Sast.Demoscan
use omniscan.Adapters.Sast.Demoscan.{Entry, Walker, Hit, scan_entries, report_of}
use omniscan.Adapters.Sast.Demoscan.Roundtrip.{rule_of_hit, sarif_of_hit, parse-run}
use omniscan.Adapters.Rvd.Engine
use omniscan.Adapters.Rvd.Engine.Discipline.{Disciplined, parse-Disciplined}
use omniscan.Tests.Data.{runtime, git_source, no_target}

-- A substitution that knows one secret and one of the patterns.
abbrev pub sub : String → String → String → String
sub pat repl s =
    if pat == "(?i)\\bvault://\\S+" then (if s == "vault://omniscan/acme" then repl else s) else s

abbrev credentials : Json
credentials = obj (
    Fields.field "api_token" (str "abc")
      (Fields.field "notes" (arr (Items.cons (str "vault://omniscan/acme") Items.nil)) end))

abbrev note_path : List Step
note_path = member "notes" ∷ item 0 ∷ []

note_at : at note_path credentials ≡ some (str "vault://omniscan/acme")
unfolding at
note_at = refl

redact-Shown_example :
    Shown sub note_path (str "vault://omniscan/acme") (at note_path (redact sub credentials))
redact-Shown_example = redact-Shown sub note_path credentials (str "vault://omniscan/acme") note_at

abbrev entry : Entry
entry = record {
  is_regular = true;
  suffix = ".py";
  parts = "app.py" ∷ [];
  size = some 20;
  text = some "eval(x)";
  relative = "app.py";
}

abbrev walker : Walker
walker = record { walk = λ path. entry ∷ []; search = λ pattern line. pattern == "\\beval\\s*\\(" }

abbrev hits : List Hit
hits = scan_entries walker (entry ∷ [])

abbrev pub whole : Json → Try ℕ
whole (num n) = ok (n / 1000)
whole _ = raise (value_error "not an integer")

-- The libraries where `loads` reads one document.
abbrev pub libraries : Json → Libraries
libraries document = record {
  runtime = runtime;
  loads = λ s. ok document;
  dumps = λ j. "{}";
  load_sarif = λ s. ok (one_run "tool" [] []);
  to_int = whole;
  is_dir = λ p. true;
  is_file = λ p. true;
  root = "/opt/omniscan";
  environ = λ name. none;
  sub = sub;
}

whole_line : (n : ℕ) → whole (num (1000 * n)) ≡ ok n
whole_line n = ap ok (omega arith)

abbrev code_request : ScanRequest
code_request = record {
  scan_id = "scan_1";
  job_id = "job_1";
  scan_class = sast;
  project_id = "proj_1";
  tool = "demoscan";
  source = git_source;
  target = no_target;
  scope_allow = [];
  scope_deny = [];
  auth_ref = none;
  options = [];
  workspace_path = some "/tmp/ws";
}

ran : Demoscan.run (libraries (report_of hits)) walker code_request ≡ ok "{}"
unfolding Demoscan.run
ran = refl

parse-run_example :
    Demoscan.parse (libraries (report_of hits)) "{}"
    ≡ ok (one_run "demoscan" (distinct_rules (map rule_of_hit hits)) (map sarif_of_hit hits))
unfolding workspace_or_dot
parse-run_example =
    parse-run (libraries (report_of hits)) walker code_request "{}" whole_line refl ran

abbrev host : Host
host = record {
  lib = libraries null;
  walker = walker;
  checkout = record { is_dir = λ p. true; walk = λ p. []; read_text = λ w p. none };
  ollama = raise (backend_unavailable "no local server");
  ids = λ n. "r";
}

abbrev site_request : ScanRequest
site_request = record code_request {
  scan_class = dast;
  tool = "zap";
  target = record { base_url = some "https://shop.example.com" };
  scope_allow = "shop.example.com" ∷ [];
  auth_ref = some "vault://omniscan/acme";
}

abbrev site_spec : ContainerSpec
site_spec = Zap.invocation_of host.lib site_request "https://shop.example.com"

zap_found : get (builtins host) "zap" ≡ ok (Zap.adapter host.lib)
unfolding get builtins find_by
zap_found = refl

zap_valid : (Zap.adapter host.lib).validate_inputs site_request ≡ ok tt
unfolding Zap.validate
zap_valid = refl

zap_built : (Zap.adapter host.lib).build_invocation site_request ≡ ok site_spec
unfolding Zap.invocation
zap_built = refl

get-Guarded_example : Guarded site_request site_spec
get-Guarded_example =
    get-Guarded host "zap" (Zap.adapter host.lib) site_request site_spec zap_found zap_valid
      zap_built

abbrev entry_fields : Fields
entry_fields =
    (Fields.field "rule_id" (str "RVD-auth") (
      Fields.field "title" (str "Possible weakness")
        (Fields.field "verified" (boolean true) (Fields.field "confidence" (num 900) end))))

abbrev entry_document : Json
entry_document = obj entry_fields

abbrev rvd_report : Json
rvd_report = obj (Fields.field "results" (arr (Items.cons entry_document Items.nil)) end)

abbrev disciplined_log : SarifLog
disciplined_log =
    Engine.engine_log ((("results", arr (Items.cons entry_document Items.nil)) ∷ [])) (
      Engine.result_at (dict_of entry_fields) (boolean true) 900 "RVD-auth" "Possible weakness" []
      ∷ [])

read : Engine.parse (libraries rvd_report) "{}" ≡ ok disciplined_log
unfolding Engine.parse Engine.result_of_json Engine.result_of lookup to_float
read = refl

parse-Disciplined_example : All (λ run. All Disciplined run.results) disciplined_log.runs
parse-Disciplined_example = parse-Disciplined (libraries rvd_report) "{}" disciplined_log read
