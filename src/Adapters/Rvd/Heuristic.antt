-- ===== src/Adapters/Rvd/Heuristic.antt =====
-- adapters/rvd/backends/heuristic.py and backends/__init__.py: the fallback that needs no model, and
-- the choice of a backend. The walk over the files and their texts are parameters.
use omniscan.Prelude.{ℕ, suc, String, ◌<>◌, ◌==◌, Bool, false, not, ◌&&◌, ◌||◌, Option, none, some}
use omniscan.Prelude.{List, [], ◌∷◌, ◌++◌, map, any, select, contains, length, leb, if◌then◌else◌}
use omniscan.Prelude.Text.{has_text}
use omniscan.Prelude.Dict.{Dict, lookup}
use omniscan.Prelude.Try.{Try, ok, raise, backend_unavailable}
use omniscan.Python.Json.{str}
use omniscan.Engine.Planner.{names_text}
use omniscan.Adapters.Sast.Demoscan.{Entry}
use omniscan.Adapters.Rvd.Base.{Drawn, TargetModel, Hypothesis, Observation, Backend}

-- `walk` lists the entries below a directory, and `read_text` reads one of them below the workspace,
-- or is `none` where the system raises `OSError`.
pub record Checkout : Type 0 where
  pub is_dir : String → Bool
  pub walk : String → List Entry
  pub read_text : String → String → Option String

-- `_INTERESTING`
abbrev pub interesting : Dict (List String)
interesting =
    ("isolation", "subprocess" ∷ "container" ∷ "sandbox" ∷ "exec(" ∷ "os.system" ∷ [])
    ∷ ("deserialization", "pickle" ∷ "yaml.load" ∷ "marshal" ∷ "__reduce__" ∷ [])
    ∷ ("auth", "session" ∷ "token" ∷ "authorize" ∷ "permission" ∷ "is_admin" ∷ [])
    ∷ ("memory-safety", "memcpy" ∷ "strcpy" ∷ "unsafe" ∷ "ctypes" ∷ "malloc" ∷ [])
    ∷ []

abbrev source_suffixes : List String
source_suffixes = ".py" ∷ ".js" ∷ ".ts" ∷ ".go" ∷ ".c" ∷ ".cpp" ∷ ".rb" ∷ []

abbrev is_source : Entry → Bool
is_source e =
    e.is_regular
    && contains source_suffixes e.suffix
    && not (any (contains e.parts) (".git" ∷ "node_modules" ∷ ".venv" ∷ []))

-- `xs[:n]`
unfoldable pub take {ℓ} : {A : Type ℓ} → ℕ → List A → List A
take ℕ.zero xs = []
take (ℕ.suc n) [] = []
take (ℕ.suc n) (x ∷ xs) = x ∷ take n xs

source_files : Checkout → Option String → List String
source_files c none = []
source_files c (some p) =
    if p == "" || not (c.is_dir p) then [] else map (λ e. e.relative) (select is_source (c.walk p))

unfoldable pub comprehend : Checkout → Option String → TargetModel
unfolding source_files take
comprehend c workspace_path = record {
  workspace_path = workspace_path;
  files = take 2000 (source_files c workspace_path);
  components = take 2000 (source_files c workspace_path);
}

abbrev markers_of : String → List String
markers_of area = elim (lookup area interesting) [ none ↦ [] | some ms ↦ ms ]

hypothesis_of : String → String → String → List String → Hypothesis
hypothesis_of id path area hits = record {
  id = id;
  title = "Possible " <> area <> " composition weakness in " <> path;
  rationale =
      "Heuristic only: file combines "
      <> names_text hits
      <> " which can interact unsafely. Requires model-backed verification before treating as real.";
  composition_path = path ∷ [];
  suspected_severity = "medium";
  locations = (("file", str path) ∷ ("composition_path", str path) ∷ []) ∷ [];
  focus = some area;
  risk_tier = "unknown_unknown";
}

-- The loop over the areas, on one file; `n` counts the identifiers drawn.
unfoldable pub scan_areas : (ℕ → String) → ℕ → String → String → List String → List Hypothesis × ℕ
unfolding hypothesis_of
scan_areas ids n path text [] = ([], n)
scan_areas ids n path text (area ∷ areas) =
    let hits = select (λ m. has_text m text) (markers_of area) in
    let found = leb 2 (length hits) in
    let (hyps, m) = scan_areas ids (if found then suc n else n) path text areas in
    (if found then hypothesis_of ("hyp_" <> ids n) path area hits ∷ hyps else hyps, m)

scan_component :
    Checkout → (ℕ → String) → ℕ → Option String → String → List String → List Hypothesis × ℕ
unfolding scan_areas
scan_component c ids n none path focuses = ([], n)
scan_component c ids n (some root) path focuses =
    if root == "" then ([], n) else elim (c.read_text root path) [
      | none ↦ ([], n)
      | some text ↦ scan_areas ids n path text focuses
    ]

unfoldable pub scan_components :
    Checkout → (ℕ → String) → ℕ → Option String → List String → List String → List Hypothesis × ℕ
unfolding scan_component
scan_components c ids n root focuses [] = ([], n)
scan_components c ids n root focuses (path ∷ paths) =
    let (hyps, m) = scan_component c ids n root path focuses in
    let (rest, k) = scan_components c ids m root focuses paths in (hyps ++ rest, k)

-- `focus or list(_INTERESTING.keys())`
abbrev focuses_of : List String → List String
focuses_of [] = map (λ e. e.0) interesting
focuses_of (f ∷ fs) = f ∷ fs

unfoldable pub hypothesize : Checkout → (ℕ → String) → TargetModel → List String → Drawn
unfolding scan_components take
hypothesize c ids model focus =
    let (hyps, n) =
      scan_components c ids 0 model.workspace_path (focuses_of focus) model.components in
    record { hypotheses = take 50 hyps; draws = n; assessments = [] }

unfoldable pub probe : Hypothesis → Observation
probe h = record {
  hypothesis_id = h.id;
  verified = false;
  confidence = 200;
  evidence = "unverified heuristic hypothesis (no model backend wired)";
  poc_artifact = none;
}

unfoldable pub heuristic : Checkout → Backend
unfolding comprehend hypothesize probe
heuristic c = record {
  name = "heuristic";
  comprehend = λ workspace_path focus. ok (comprehend c workspace_path);
  hypothesize = λ ids model budget focus. ok (hypothesize c ids model focus);
  probe = λ assessments h model generate_poc. ok (probe h);
}

-- `_BACKENDS`: what the constructors give; that of the model-backed one asks a local server.
unfoldable pub backend_of : Checkout → Try Backend → String → Option (Try Backend)
unfolding heuristic
backend_of c ollama candidate =
    if candidate == "ollama"
    then some ollama
    else if candidate == "heuristic"
    then some (ok (heuristic c))
    else none

-- What the loop does on what it finds under a candidate's name, and after it.
unfoldable pub choose : Option (Try Backend) → Try Backend → Try Backend
choose none later = later
choose (some (ok b)) later = ok b
choose (some (raise (backend_unavailable m))) later = later
choose (some (raise e)) later = raise e

unfoldable pub try_each : Checkout → Try Backend → List String → Try Backend
unfolding choose backend_of heuristic
try_each c ollama [] = ok (heuristic c)
try_each c ollama (candidate ∷ rest) =
    choose (backend_of c ollama candidate) (try_each c ollama rest)

abbrev pub preference : Option String → List String
preference none = "ollama" ∷ "heuristic" ∷ []
preference (some name) = if name == "" then "ollama" ∷ "heuristic" ∷ [] else name ∷ []

unfoldable pub get_backend : Checkout → Try Backend → Option String → Try Backend
unfolding try_each
get_backend c ollama name = try_each c ollama (preference name)
