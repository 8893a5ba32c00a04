-- ===== src/Adapters/Rvd/Engine.antt =====
-- adapters/rvd/engine.py and adapters/rvd/poc: the discovery loop, from comprehension to SARIF.
pub mod Discipline
use omniscan.Prelude.{
  ℕ, suc, leb, ◌+◌, String, ◌<>◌, ◌==◌, Bool, true, false, not, ◌&&◌, ◌||◌, Option, none, some,
}
use omniscan.Prelude.{List, [], ◌∷◌, ◌++◌, map, is_nil, if◌then◌else◌}
use omniscan.Prelude.Text.{take_text, truthy}
use omniscan.Prelude.Dict.{Dict, lookup, insert}
use omniscan.Prelude.Try.{
  Try, ok, raise, value_error, key_error, other_error, raise_if, ◌>>=◌, ◌>>◌,
}
use omniscan.Python.Json.{
  Json, JsonDict, Items, null, boolean, num, str, arr, obj, end, as_dict, as_list, get_or, value_at,
  or_else, json_truthy, items_of, fields_of,
}
use omniscan.Core.Enums.{rvd}
use omniscan.Normalize.Severity.{to_float}
use omniscan.Normalize.Sarif.{Result, SarifLog}
use omniscan.Adapters.Base.{ScanRequest, ContainerSpec, ScannerAdapter, NetworkMode, none_, egress}
use omniscan.Adapters.Chainability.{ChainEdge, score}
use omniscan.Adapters.Rvd.Base.{TargetModel, Hypothesis, Observation, Backend}
use omniscan.Adapters.Rvd.Heuristic.{Checkout, get_backend}
use omniscan.Adapters.Tools.{
  Libraries, require_class, workspace_or_dot, item_at, as_text, map_try, one_run, property_location,
}

-- `not request.target`: the dict holds at most its `base_url`.
abbrev pub has_target : ScanRequest → Bool
has_target request = elim request.target.base_url [ none ↦ false | some url ↦ true ]

unfoldable pub validate : ScanRequest → Try (Unit {0})
validate request = do
  require_class request rvd "rvd adapter only handles RVD scans"
  raise_if (not (truthy request.workspace_path) && not (has_target request))
      (value_error "rvd requires a workspace (repo) and/or a running target")
  raise_if (has_target request && is_nil request.scope_allow)
      (value_error "rvd against a running target requires an explicit scope allowlist")

unfoldable pub invocation : ScanRequest → ContainerSpec
unfolding workspace_or_dot
invocation request = record {
  image = "omniscan/rvd-engine:0.1.0";
  args = "rvd" ∷ "--workspace" ∷ "/workspace" ∷ [];
  env = [];
  secret_refs = [];
  mounts = (workspace_or_dot request.workspace_path, "/workspace") ∷ [];
  read_only_root = true;
  writable_tmp = true;
  network = if has_target request then egress else none_;
  limits = record { cpu = 4000; memory_mb = 8192; timeout_seconds = 28800 };
  success_exit_codes = 0 ∷ [];
}

-- `store_poc`: the opaque reference; the identifier is the `n`th that is drawn.
unfoldable pub store_poc : Libraries → (ℕ → String) → ℕ → String → String
unfolding take_text
store_poc lib ids n artifact =
    "poc://poc_" <> ids n <> "#" <> take_text 16 (lib.runtime.sha256_hex artifact)

-- `{h.id: backend.probe(h, ...) for h in hypotheses}`
probe_all :
    Backend
    → Dict Observation
    → TargetModel
    → Bool
    → List Hypothesis
    → Dict Observation
    → Try (Dict Observation)
probe_all backend assessments model generate_poc [] seen = ok seen
probe_all backend assessments model generate_poc (h ∷ hs) seen = do
  obs ← backend.probe assessments h model generate_poc
  probe_all backend assessments model generate_poc hs (insert h.id obs seen)

abbrev texts : List String → Json
texts ss = arr (items_of (map str ss))

abbrev dicts : List JsonDict → Json
dicts ds = arr (items_of (map (λ d. obj (fields_of d)) ds))

abbrev optional_text : Option String → Json
optional_text none = null
optional_text (some s) = str s

abbrev score_of : Dict ℕ → String → ℕ
score_of scores id = elim (lookup id scores) [ none ↦ 0 | some s ↦ s ]

abbrev focus_or : Option String → String
focus_or none = "general"
focus_or (some f) = if f == "" then "general" else f

-- The entry of the report for a hypothesis.
unfoldable pub entry_of : Backend → Dict ℕ → Hypothesis → Observation → Option String → JsonDict
unfolding items_of fields_of
entry_of backend scores h obs poc_ref =
    ("rule_id", str ("RVD-" <> focus_or h.focus))
    ∷ ("title", str h.title)
    ∷ ("rationale", str h.rationale)
    ∷ ("verified", boolean obs.verified)
    ∷ ("confidence", num obs.confidence)
    ∷ ("evidence", str obs.evidence)
    ∷ ("composition_path", texts h.composition_path)
    ∷ ("chainability_score", num (score_of scores h.id))
    ∷ ("suspected_severity", str h.suspected_severity)
    ∷ ("risk_tier", str h.risk_tier)
    ∷ ("locations", dicts h.locations)
    ∷ ("poc_ref", optional_text poc_ref)
    ∷ ("backend", str backend.name)
    ∷ []

observed : Dict Observation → String → Try Observation
observed seen id = elim (lookup id seen) [ none ↦ raise (key_error id) | some obs ↦ ok obs ]

-- The reference to the artifact, if there is one, and the number of identifiers drawn.
poc_of : Libraries → (ℕ → String) → ℕ → Option String → Option String × ℕ
unfolding store_poc
poc_of lib ids n none = (none, n)
poc_of lib ids n (some artifact) =
    if artifact == "" then (none, n) else (some (store_poc lib ids n artifact), suc n)

-- The loop over the hypotheses.
unfoldable pub entries :
    Libraries
    → (ℕ → String)
    → ℕ
    → Backend
    → Dict ℕ
    → Dict Observation
    → List Hypothesis
    → Try (List JsonDict)
unfolding observed poc_of entry_of
entries lib ids n backend scores seen [] = ok []
entries lib ids n backend scores seen (h ∷ hs) = do
  obs ← observed seen h.id
  let (poc_ref, m) = poc_of lib ids n obs.poc_artifact
  rest ← entries lib ids m backend scores seen hs
  ok (entry_of backend scores h obs poc_ref ∷ rest)

abbrev json_of_edge : ChainEdge → JsonDict
json_of_edge e =
    ("src", str e.src)
    ∷ ("dst", str e.dst)
    ∷ ("weight", num e.weight)
    ∷ ("reason", str e.reason)
    ∷ []

-- `opts.get("focus") or []`, and `opts.get("backend")`: the schema of the request makes the one a
-- list of texts and the other a text or null.
focus_of : Json → Try (List String)
unfolding as_text as_list map_try
focus_of j = if json_truthy j then (as_list j >>= map_try as_text) else ok []

name_of : Json → Option String
name_of (str s) = some s
name_of _ = none

-- `run_native`; `ids` are the random texts that `new_id` draws, `ollama` what the constructor of the
-- model-backed backend gives.
unfoldable pub run : Libraries → Checkout → Try Backend → (ℕ → String) → ScanRequest → Try String
unfolding focus_of name_of probe_all entries get_backend score value_at get_or fields_of items_of
    as_text
run lib checkout ollama ids request = do
  focus ← focus_of (value_at "focus" request.options)
  budget ← as_text (get_or "budget" (str "1h") request.options)
  let generate_poc = json_truthy (get_or "generate_poc" (boolean false) request.options)
  backend ← get_backend checkout ollama (name_of (value_at "backend" request.options))
  model ← backend.comprehend request.workspace_path focus
  drawn ← backend.hypothesize ids model budget focus
  seen ← probe_all backend drawn.assessments model generate_poc drawn.hypotheses []
  let scores = score drawn.hypotheses
  results ← entries lib ids drawn.draws backend scores.0 seen drawn.hypotheses
  ok (
      lib.dumps (
        obj (
          fields_of (
            ("tool", str "rvd")
            ∷ ("backend", str backend.name)
            ∷ ("results", dicts results)
            ∷ ("chain_edges", dicts (map json_of_edge scores.1))
            ∷ []))))

-- `xs[0]`
first_item : List Json → Try Json
first_item [] = raise (other_error "list index out of range")
first_item (x ∷ xs) = ok x

-- `float(value)`
as_float : Libraries → Json → Try ℕ
as_float lib j = elim (to_float lib.runtime.float_text j) [
  | none ↦ raise (value_error "could not convert to float")
  | some n ↦ ok n
]

unfoldable pub level_of : Bool → ℕ → String
level_of verified confidence =
    if not verified then "note" else if leb 800 confidence then "error" else "warning"

-- The result for an entry of the report, from the fields that were read.
unfoldable pub result_at : JsonDict → Json → ℕ → String → String → JsonDict → Result
unfolding level_of get_or value_at
result_at item verified confidence rule_id title loc = record {
  rule_id = rule_id;
  level = level_of (json_truthy verified) confidence;
  message = title;
  locations = property_location loc ∷ [];
  properties =
      ("severity", get_or "suspected_severity" (str "medium") item)
      ∷ ("chainability_score", get_or "chainability_score" (num 0) item)
      ∷ ("risk_tier", get_or "risk_tier" (str "unknown_unknown") item)
      ∷ ("reasoning_trace", value_at "rationale" item)
      ∷ ("composition_path", value_at "composition_path" item)
      ∷ ("verified", verified)
      ∷ ("confidence", num confidence)
      ∷ ("evidence", value_at "evidence" item)
      ∷ ("poc_ref", value_at "poc_ref" item)
      ∷ ("embargoed", boolean true)
      ∷ ("backend", value_at "backend" item)
      ∷ [];
}

-- One round of the loop of `parse_output`.
unfoldable pub result_of : Libraries → JsonDict → Try Result
unfolding result_at first_item as_float get_or as_list as_dict item_at as_text
result_of lib item = do
  let verified = get_or "verified" (boolean false) item
  confidence ← as_float lib (get_or "confidence" (num 0) item)
  locs ← as_list (get_or "locations" (arr (Items.cons (obj end) Items.nil)) item)
  loc_value ← first_item locs
  rule_value ← item_at "rule_id" item
  title_value ← item_at "title" item
  rule_id ← as_text rule_value
  title ← as_text title_value
  loc ← as_dict loc_value
  ok (result_at item verified confidence rule_id title loc)

unfoldable pub result_of_json : Libraries → Json → Try Result
unfolding result_of as_dict
result_of_json lib j = do item ← as_dict j; result_of lib item

-- The one run, with the chain edges of the report among its properties.
abbrev pub engine_log : JsonDict → List Result → SarifLog
engine_log d results = record {
  runs =
      record {
        driver = record { name = "rvd"; rules = [] };
        properties = ("chain_edges", get_or "chain_edges" (arr Items.nil) d) ∷ [];
        results = results;
      }
      ∷ [];
}

unfoldable pub parse : Libraries → String → Try SarifLog
unfolding result_of_json map_try as_dict as_list
parse lib raw = do
  report ← lib.loads raw
  d ← as_dict report
  items ← as_list (get_or "results" (arr Items.nil) d)
  results ← map_try (result_of_json lib) items
  ok (engine_log d results)

abbrev pub adapter : Libraries → Checkout → Try Backend → (ℕ → String) → ScannerAdapter
adapter lib checkout ollama ids = record {
  name = "rvd";
  scan_class = rvd;
  capabilities = "agentic" ∷ "compositional" ∷ "chainability" ∷ "poc" ∷ [];
  native = true;
  validate_inputs = validate;
  build_invocation = λ request. ok (invocation request);
  parse_output = parse lib;
  run_native = run lib checkout ollama ids;
}
