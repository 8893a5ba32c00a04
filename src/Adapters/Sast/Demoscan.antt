-- ===== src/Adapters/Sast/Demoscan.antt =====
-- adapters/sast/demoscan/adapter.py: the built-in pattern scan of a checkout. The walk over the files
-- and the search of a regular expression are parameters.
pub mod Roundtrip
use omniscan.Prelude.{ℕ, String, ◌<>◌, ◌==◌, Bool, true, false, not, ◌&&◌, ◌||◌, Option, none, some}
use omniscan.Prelude.{suc, ◌*◌, ltb, any, List, [], ◌∷◌, ◌++◌, map, contains, is_nil, if◌then◌else◌}
use omniscan.Prelude.Text.{
  strip, lower, upper, take_text, remove_prefix, split_lines, begins_with, truthy,
}
use omniscan.Prelude.Dict.{Dict, lookup, has_key, insert, set_default}
use omniscan.Prelude.Try.{Try, ok, raise, value_error, key_error, raise_if, ◌>>=◌, ◌>>◌}
use omniscan.Python.Json.{
  Json, Items, Fields, JsonDict, null, boolean, num, str, arr, obj, end, as_dict, as_list, get_or,
  value_at, or_else, json_truthy,
}
use omniscan.Core.Enums.{sast, dast}
use omniscan.Core.Redact.{redact}
use omniscan.Normalize.Fingerprint.{format}
use omniscan.Normalize.Severity.{to_float}
use omniscan.Normalize.Runtime.{Runtime}
use omniscan.Normalize.Sarif.{Location, Result, ReportingDescriptor, Run, SarifLog}
use omniscan.Adapters.Base.{ScanRequest, ContainerSpec, ScannerAdapter, none_, egress, target}
use omniscan.Adapters.Tools.{
  Libraries, require_class, require_workspace, path_text, no_checkout, workspace_or_dot, item_at,
  as_text, as_line, map_try, relative_location, map_results, no_sarif, one_run, file_location,
  property_location, distinct_rules, not_implemented, base_url_of, rate_args, entry_or,
}

-- One entry of `root.rglob("*")`; `size` and `text` are `none` where the system raises `OSError`.
pub record Entry : Type 0 where
  pub is_regular : Bool
  pub suffix : String
  pub parts : List String
  pub size : Option ℕ
  pub text : Option String
  pub relative : String

-- `walk` lists the entries below a path, and `search` tells whether a pattern is found in a line.
pub record Walker : Type 0 where
  pub walk : String → List Entry
  pub search : String → String → Bool

pub record Rule : Type 0 where
  pub rule_id : String
  pub title : String
  pub severity : String
  pub pattern : String

abbrev rule : String → String → String → String → Rule
rule rule_id title severity pattern = record {
  rule_id = rule_id;
  title = title;
  severity = severity;
  pattern = pattern;
}

-- `_RULES`
abbrev pub rules : List Rule
rules =
    rule "DS001" "Use of eval()" "high" "\\beval\\s*\\("
    ∷ rule "DS002" "Shell injection via subprocess(shell=True)" "high" "shell\\s*=\\s*True"
    ∷ rule "DS003" "Insecure deserialization (pickle.loads)" "high" "pickle\\.loads?\\s*\\("
    ∷ rule "DS004" "Hardcoded password literal" "medium" "(?i)password\\s*=\\s*['\"][^'\"]{3,}['\"]"
    ∷ rule "DS005" "Weak hash (md5)" "low" "(?i)hashlib\\.md5\\s*\\("
    ∷ rule "DS006" "Disabled TLS verification" "high" "verify\\s*=\\s*False"
    ∷ []

abbrev pub scannable_suffixes : List String
scannable_suffixes = ".py" ∷ ".js" ∷ ".ts" ∷ ".go" ∷ ".rb" ∷ ".java" ∷ ".php" ∷ []

abbrev pub max_file_bytes : ℕ
max_file_bytes = 1000000

unfoldable pub validate : Libraries → ScanRequest → Try (Unit {0})
unfolding no_checkout
validate lib request = do
  require_class request sast "demoscan only handles SAST"
  require_workspace request "demoscan requires a checked-out workspace path"
  raise_if (no_checkout lib request.workspace_path)
      (value_error "workspace_path does not exist or is not a directory")

unfoldable pub invocation : Libraries → ScanRequest → ContainerSpec
unfolding workspace_or_dot
invocation lib request = record {
  image = "omniscan/demoscan:0.1.0";
  args = "scan" ∷ "/workspace" ∷ [];
  env = [];
  secret_refs = [];
  mounts = (workspace_or_dot request.workspace_path, "/workspace") ∷ [];
  read_only_root = true;
  writable_tmp = true;
  network = none_;
  limits = record { cpu = 1000; memory_mb = 2048; timeout_seconds = 300 };
  success_exit_codes = 0 ∷ [];
}

-- A match of a rule in a line.
pub record Hit : Type 0 where
  pub rule_id : String
  pub title : String
  pub severity : String
  pub file : String
  pub line : ℕ
  pub snippet : String

-- The text that is scanned of an entry, if it is.
unfoldable pub scanned_text : Entry → Option String
scanned_text e =
    if not e.is_regular || not (contains scannable_suffixes e.suffix)
    then none
    else if any (contains e.parts) (".git" ∷ "node_modules" ∷ ".venv" ∷ "venv" ∷ [])
    then none
    else elim e.size [ none ↦ none | some n ↦ if ltb max_file_bytes n then none else e.text ]

unfoldable pub scan_line : Walker → String → ℕ → String → List Rule → List Hit
unfolding take_text strip
scan_line walker file line text [] = []
scan_line walker file line text (r ∷ rs) =
    let rest = scan_line walker file line text rs in
    if walker.search r.pattern text
    then record {
      rule_id = r.rule_id;
      title = r.title;
      severity = r.severity;
      file = file;
      line = line;
      snippet = take_text 200 (strip text);
    }
      ∷ rest
    else rest

unfoldable pub scan_lines : Walker → String → ℕ → List String → List Hit
unfolding scan_line
scan_lines walker file line [] = []
scan_lines walker file line (t ∷ ts) =
    scan_line walker file line t rules ++ scan_lines walker file (suc line) ts

unfoldable pub scan_entries : Walker → List Entry → List Hit
unfolding scan_lines scanned_text split_lines
scan_entries walker [] = []
scan_entries walker (e ∷ es) =
    let rest = scan_entries walker es in
    elim (scanned_text e) [
      | none ↦ rest
      | some text ↦ scan_lines walker e.relative 1 (split_lines text) ++ rest
    ]

-- A line number is a whole number of thousands.
abbrev pub json_of_hit : Hit → Json
json_of_hit h = obj (
    Fields.field "rule_id" (str h.rule_id) (
      Fields.field "title" (str h.title) (
        Fields.field "severity" (str h.severity) (
          Fields.field "file" (str h.file) (
            Fields.field "line" (num (1000 * h.line))
              (Fields.field "snippet" (str h.snippet) Fields.end))))))

unfoldable pub json_of_hits : List Hit → Items
json_of_hits [] = Items.nil
json_of_hits (h ∷ hs) = Items.cons (json_of_hit h) (json_of_hits hs)

unfoldable pub report_of : List Hit → Json
unfolding json_of_hits
report_of hits = obj (
    Fields.field "tool" (str "demoscan") (
      Fields.field "version" (str "0.1.0")
        (Fields.field "results" (arr (json_of_hits hits)) Fields.end)))

unfoldable pub run : Libraries → Walker → ScanRequest → Try String
unfolding report_of scan_entries workspace_or_dot
run lib walker request = ok (
    lib.dumps
      (report_of (scan_entries walker (walker.walk (workspace_or_dot request.workspace_path)))))

abbrev title_of : List Rule → String → Option String
title_of [] rid = none
title_of (r ∷ rs) rid =
    let rest = title_of rs rid in if r.rule_id == rid then some r.title else rest

-- `value == text`
abbrev is_text : String → Json → Bool
is_text text (str s) = s == text
is_text text _ = false

-- One round of the loop over the results.
unfoldable pub result_of : Libraries → JsonDict → Try (ReportingDescriptor × Result)
unfolding format get_or item_at as_text as_line
result_of lib item = do
  rid_value ← item_at "rule_id" item
  title_value ← item_at "title" item
  rid ← as_text rid_value
  title ← as_text title_value
  severity ← item_at "severity" item
  file_value ← item_at "file" item
  file ← as_text file_value
  line_value ← item_at "line" item
  line ← as_line lib line_value
  ok (
    record {
      id = rid;
      name = title_of rules rid;
      short_description = some title;
      full_description = none;
      default_configuration = [];
      properties = [];
    },
    record {
      rule_id = rid;
      level = if is_text "high" severity then "error" else "warning";
      message = title <> ": " <> format lib.runtime (get_or "snippet" (str "") item);
      locations = file_location file line ∷ [];
      properties = ("severity", severity) ∷ [];
    },
  )

unfoldable pub result_of_json : Libraries → Json → Try (ReportingDescriptor × Result)
unfolding result_of as_dict
result_of_json lib j = do d ← as_dict j; result_of lib d

unfoldable pub parse : Libraries → String → Try SarifLog
unfolding result_of_json map_try distinct_rules as_dict as_list get_or
parse lib raw = do
  report ← lib.loads raw
  d ← as_dict report
  items ← as_list (get_or "results" (arr Items.nil) d)
  found ← map_try (result_of_json lib) items
  ok (one_run "demoscan" (distinct_rules (map (λ x. x.0) found)) (map (λ x. x.1) found))

abbrev pub adapter : Libraries → Walker → ScannerAdapter
adapter lib walker = record {
  name = "demoscan";
  scan_class = sast;
  capabilities = "pattern-match" ∷ "multi-language" ∷ [];
  native = true;
  validate_inputs = validate lib;
  build_invocation = λ request. ok (invocation lib request);
  parse_output = parse lib;
  run_native = run lib walker;
}
