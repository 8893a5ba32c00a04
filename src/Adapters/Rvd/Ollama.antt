-- ===== src/Adapters/Rvd/Ollama.antt =====
-- adapters/rvd/backends/ollama.py: the backend that asks a local model. The server is a parameter; the
-- walk of the checkout is sorted, and the values that the requested schema makes texts or lists of
-- texts are read as such.
use omniscan.Prelude.{
  ℕ, ◌+◌, suc, ltb, String, ◌<>◌, ◌==◌, Bool, false, not, ◌&&◌, ◌||◌, Option, none, some,
}
use omniscan.Prelude.{List, [], ◌∷◌, map, any, select, contains, if◌then◌else◌}
use omniscan.Prelude.Text.{strip, strip_slashes, same_char, take_text, text_length}
use omniscan.Prelude.Dict.{Dict, lookup, insert}
use omniscan.Prelude.Try.{Try, ok, raise, backend_unavailable, other_error, ◌>>=◌, ◌>>◌, raise_if}
use omniscan.Python.Json.{
  Json, JsonDict, num, str, arr, obj, Items, get_or, value_at, or_else, as_list, list_of, dict_of,
}
use omniscan.Python.Url.{span_to}
use omniscan.Normalize.Fingerprint.{format, join}
use omniscan.Normalize.Severity.{to_float}
use omniscan.Adapters.Tools.{Libraries}
use omniscan.Adapters.Sast.Demoscan.{Entry}
use omniscan.Adapters.Rvd.Base.{Drawn, TargetModel, Hypothesis, Observation, Backend}
use omniscan.Adapters.Rvd.Heuristic.{Checkout, take}

-- `tags` lists the names of the models at a URL, `chat` the content that a model answers to a prompt,
-- sent with the fixed system message and the schema of the answer; either is `none` where the request fails.
pub record Server : Type 0 where
  pub tags : String → Option (List String)
  pub chat : String → String → String → Option String

-- `name.split(":")[0]`
base_of : String → String
unfolding span_to
base_of name = (span_to (λ c. same_char c ":") name).0

-- `_verify_available`
unfoldable pub verify_available : Server → String → String → Try (Unit {0})
unfolding base_of
verify_available server url model = elim (server.tags url) [
  | none ↦
      raise (
        backend_unavailable
          ("Ollama not reachable at " <> url <> " (start it with `ollama serve`)"))
  | some tags ↦
      raise_if (not (contains tags model) && not (any (λ t. base_of t == base_of model) tags)) (
        backend_unavailable
          ("model '" <> model <> "' not pulled — run `ollama pull " <> model <> "`"))
]

-- `_SCANNABLE`
abbrev pub scannable : List String
scannable =
    ".py" ∷ ".js" ∷ ".ts" ∷ ".go" ∷ ".c" ∷ ".cpp" ∷ ".h" ∷ ".rb" ∷ ".java" ∷ ".rs" ∷ ".php" ∷ []

is_scanned : Entry → Bool
is_scanned e =
    e.is_regular
    && contains scannable e.suffix
    && not (any (contains e.parts) (".git" ∷ "node_modules" ∷ ".venv" ∷ "venv" ∷ "dist" ∷ []))

scanned_files : Checkout → Option String → List String
unfolding is_scanned
scanned_files c none = []
scanned_files c (some p) =
    if p == "" || not (c.is_dir p) then [] else map (λ e. e.relative) (select is_scanned (c.walk p))

unfoldable pub comprehend : Checkout → Option String → TargetModel
unfolding scanned_files take
comprehend c workspace_path = record {
  workspace_path = workspace_path;
  files = take 400 (scanned_files c workspace_path);
  components = [];
}

-- The loop of `_build_digest`, which stops at the first file that does not fit.
unfoldable pub add_files : Checkout → String → ℕ → List String → String
unfolding take_text text_length
add_files c root total [] = ""
add_files c root total (rel ∷ files) = elim (c.read_text root rel) [
  | none ↦ add_files c root total files
  | some text ↦
      let block : String = "\n===== FILE: " <> rel <> " =====\n" <> take_text 10000 text <> "\n" in
      let rest = add_files c root (total + text_length block) files in
      if ltb 120000 (total + text_length block) then "" else block <> rest
]

unfoldable pub build_digest : Checkout → TargetModel → String
unfolding add_files
build_digest c model = elim model.workspace_path [
  | none ↦ ""
  | some root ↦ if root == "" then "" else add_files c root 0 model.files
]

unfoldable pub prompt_of : String → List String → String → String
unfolding join
prompt_of budget focus digest =
    let focus_line : String = elim focus [
      | [] ↦ "no specific focus — survey broadly"
      | f ∷ fs ↦ join ", " (f ∷ fs)
    ] in
    "Focus areas: " <> focus_line <> ".\nCompute budget: " <> budget
    <> ".\nAnalyze the following source for residual/compositional weaknesses. Return at most 20 hypotheses, best first.\n"
    <> digest

-- `json.loads(content).get("hypotheses", [])`, where `none` is a content that cannot be read.
raw_of : Try Json → Option Json
unfolding get_or dict_of
raw_of (ok (obj fields)) = some (get_or "hypotheses" (arr Items.nil) (dict_of fields))
raw_of _ = none

-- `raw[:20]`: the characters of a text are no dicts, and are passed over.
first_items : Json → Try (List Json)
unfolding list_of take
first_items (arr xs) = ok (take 20 (list_of xs))
first_items (str s) = ok []
first_items _ = raise (other_error "object is not subscriptable")

first_or : List Json → Json
first_or [] = str ""
first_or (p ∷ path) = p

text_at : Json → Option String
text_at (str s) = some s
text_at _ = none

-- `max(0.0, min(1.0, float(...)))`, or 0.3
unfoldable pub confidence_of : Libraries → Json → ℕ
unfolding to_float
confidence_of lib j = elim (to_float lib.runtime.float_text j) [
  | none ↦ 300
  | some n ↦ if ltb 1000 n then 1000 else n
]

-- The hypothesis and the observation of an item; `path` holds the items of its composition path.
unfoldable pub hypothesis_of : Libraries → String → JsonDict → List Json → Hypothesis
unfolding format get_or value_at or_else join first_or text_at
hypothesis_of lib id item path = record {
  id = id;
  title = format lib.runtime (get_or "title" (str "Residual weakness") item);
  rationale = format lib.runtime (get_or "rationale" (str "") item);
  composition_path = map (format lib.runtime) path;
  suspected_severity = format lib.runtime (get_or "suspected_severity" (str "medium") item);
  locations =
      (("file", or_else (value_at "primary_file" item) (first_or path))
        ∷ ("composition_path", str (join " → " (map (format lib.runtime) path)))
        ∷ [])
      ∷ [];
  focus = text_at (value_at "focus" item);
  risk_tier = format lib.runtime (get_or "risk_tier" (str "unknown_unknown") item);
}

unfoldable pub observation_of : Libraries → String → JsonDict → Observation
unfolding format get_or confidence_of
observation_of lib id item = record {
  hypothesis_id = id;
  verified = false;
  confidence = confidence_of lib (get_or "confidence" (num 300) item);
  evidence = format lib.runtime (get_or "evidence" (str "") item);
  poc_artifact = none;
}

-- The loop over the items; `n` counts the identifiers drawn.
unfoldable pub read_items : Libraries → (ℕ → String) → ℕ → List Json → Dict Observation → Try Drawn
unfolding hypothesis_of observation_of as_list or_else value_at dict_of
read_items lib ids n [] kept = ok (record { hypotheses = []; draws = n; assessments = kept })
read_items lib ids n (obj fields ∷ items) kept = do
  let item = dict_of fields
  let id = "hyp_" <> ids n
  path ← as_list (or_else (value_at "composition_path" item) (arr Items.nil))
  rest ← read_items lib ids (suc n) items (insert id (observation_of lib id item) kept)
  ok (record rest { hypotheses = hypothesis_of lib id item path ∷ rest.hypotheses })
read_items lib ids n (_ ∷ items) kept = read_items lib ids n items kept

abbrev nothing_drawn : Drawn
nothing_drawn = record { hypotheses = []; draws = 0; assessments = [] }

-- The answer of the model, as `hypothesize` reads it.
unfoldable pub read_answer : Libraries → (ℕ → String) → String → Try Drawn
unfolding raw_of first_items read_items
read_answer lib ids content = elim (raw_of (lib.loads content)) [
  | none ↦ ok nothing_drawn
  | some raw ↦ (do items ← first_items raw; read_items lib ids 0 items [])
]

unfoldable pub hypothesize :
    Libraries
    → Server
    → Checkout
    → String
    → String
    → (ℕ → String)
    → TargetModel
    → String
    → List String
    → Try Drawn
unfolding build_digest strip prompt_of read_answer
hypothesize lib server c url name ids model budget focus =
    let digest = build_digest c model in
    if strip digest == ""
    then ok nothing_drawn
    else elim (server.chat url name (prompt_of budget focus digest)) [
      | none ↦ raise (backend_unavailable "Ollama call failed")
      | some content ↦ read_answer lib ids content
    ]

unfoldable pub probe : Dict Observation → Hypothesis → Observation
probe assessments h = elim (lookup h.id assessments) [
  | none ↦ record {
    hypothesis_id = h.id;
    verified = false;
    confidence = 200;
    evidence = "";
    poc_artifact = none;
  }
  | some obs ↦ obs
]

-- `OllamaBackend()`
unfoldable pub ollama : Libraries → Server → Checkout → Try Backend
unfolding verify_available comprehend hypothesize probe strip_slashes
ollama lib server c =
    let given : String = elim (lib.environ "OMNISCAN_OLLAMA_URL") [
      | none ↦ "http://localhost:11434"
      | some u ↦ u
    ] in
    let url = strip_slashes given in
    let name : String = elim (lib.environ "OMNISCAN_RVD_MODEL") [
      | none ↦ "qwen2.5-coder:7b"
      | some m ↦ m
    ] in
    (do
      verify_available server url name
      ok (record {
        name = "ollama";
        comprehend = λ workspace_path focus. ok (comprehend c workspace_path);
        hypothesize = hypothesize lib server c url name;
        probe = λ assessments h model generate_poc. ok (probe assessments h);
      }))
