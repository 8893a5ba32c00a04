-- ===== src/Normalize/Finding.antt =====
-- normalize/finding.py: SARIF results become findings, and findings of one fingerprint collapse.
pub mod Dedup
pub mod Distinct
use omniscan.Prelude.{
  ℕ, ◌*◌, String, ◌<>◌, ◌==◌, Bool, true, false, not, ◌||◌, Option, none, some, ltb,
}
use omniscan.Prelude.{List, [], ◌∷◌, ◌++◌, map, contains, if◌then◌else◌}
use omniscan.Prelude.Dict.{Dict, lookup, insert}
use omniscan.Python.Json.{Json, JsonDict, null, num, str}
use omniscan.Core.Enums.{ScanClass, class_value, Severity, severity_rank}
use omniscan.Normalize.Runtime.{Runtime}
use omniscan.Normalize.Sarif.{
  Location, LogicalLocation, PhysicalLocation, Result, ReportingDescriptor, Run, SarifLog,
}
use omniscan.Normalize.Severity.{resolve, to_float}
use omniscan.Normalize.Fingerprint.{fingerprint, first_text}
use omniscan.Prelude.Try.{Try, ok, raise, value_error, ◌>>=◌}

pub record NormalizedFinding : Type 0 where
  pub fingerprint : String
  pub scan_class : ScanClass
  pub rule_id : String
  pub title : String
  pub message : String
  pub severity : Severity
  pub location : JsonDict
  pub sources : List String
  pub extra : JsonDict
  pub chainability_score : ℕ

optional_text : Option String → Json
optional_text none = null
optional_text (some s) = str s

-- A line number, which JSON holds as a whole number of thousands.
optional_line : Option ℕ → Json
optional_line none = null
optional_line (some n) = num (1000 * n)

-- `fullyQualifiedName or name`
symbol_of : LogicalLocation → Json
symbol_of ll = elim ll.fully_qualified_name [
  | none ↦ optional_text ll.name
  | some q ↦ (if q == "" then optional_text ll.name else str q)
]

with_physical : Option PhysicalLocation → JsonDict → JsonDict
unfolding optional_text optional_line
with_physical none out = out
with_physical (some p) out =
    let filed : JsonDict = elim p.artifact_location [
      | none ↦ out
      | some a ↦ insert "file" (optional_text a.uri) out
    ] in
    elim p.region [
      | none ↦ filed
      | some r ↦
          insert "end_line" (optional_line r.end_line)
            (insert "start_line" (optional_line r.start_line) filed)
    ]

with_logical : List LogicalLocation → JsonDict → JsonDict
unfolding symbol_of
with_logical [] out = out
with_logical (ll ∷ lls) out =
    let named = insert "symbol" (symbol_of ll) out in
    elim ll.kind [
      | none ↦ named
      | some kind ↦ (if kind == "" then named else insert "symbol_kind" (str kind) named)
    ]

-- `_location_dict`
unfoldable pub location_dict : Result → JsonDict
unfolding with_physical with_logical
location_dict result = elim result.locations [
  | [] ↦ []
  | loc ∷ locs ↦
      with_logical loc.logical_locations (with_physical loc.physical_location loc.properties)
]

-- `rule_titles`; a later rule of the same id replaces an earlier one.
rule_titles : List ReportingDescriptor → Dict (Option String) → Dict (Option String)
rule_titles [] titles = titles
rule_titles (r ∷ rules) titles =
    rule_titles rules
      (insert r.id (elim r.short_description [ none ↦ r.name | some text ↦ some text ]) titles)

-- `rule_titles.get(ruleId) or ruleId`
title_of : Dict (Option String) → String → String
title_of titles rule_id = elim (lookup rule_id titles) [
  | none ↦ rule_id
  | some title ↦ (let text = first_text title none in if text == "" then rule_id else text)
]

-- The properties but `severity` and `cvss`.
unfoldable pub extra_of : JsonDict → JsonDict
extra_of [] = []
extra_of ((k, v) ∷ props) =
    let rest = extra_of props in if k == "severity" || k == "cvss" then rest else (k, v) ∷ rest

-- `float(result.properties.get("chainability_score", 0.0))`, which may raise.
unfoldable pub score_of : Runtime → JsonDict → Try ℕ
score_of rt props = elim (lookup "chainability_score" props) [
  | none ↦ ok 0
  | some v ↦ elim (to_float rt.float_text v) [
    | none ↦ raise (value_error "could not convert to float")
    | some score ↦ ok score
  ]
]

unfoldable pub normalize_result :
    Runtime → ScanClass → String → Dict (Option String) → Result → Try NormalizedFinding
unfolding title_of
normalize_result rt scan_class tool titles result = do
  score ← score_of rt result.properties
  ok (record {
    fingerprint = fingerprint rt (class_value scan_class) result;
    scan_class = scan_class;
    rule_id = result.rule_id;
    title = title_of titles result.rule_id;
    message = result.message;
    severity = resolve rt.float_text result.level result.properties;
    location = location_dict result;
    sources = tool ∷ [];
    extra = extra_of result.properties;
    chainability_score = score;
  })

unfoldable pub normalize_results :
    Runtime → ScanClass → String → Dict (Option String) → List Result → Try (List NormalizedFinding)
normalize_results rt scan_class tool titles [] = ok []
normalize_results rt scan_class tool titles (r ∷ results) = do
  f ← normalize_result rt scan_class tool titles r
  fs ← normalize_results rt scan_class tool titles results
  ok (f ∷ fs)

unfoldable pub normalize_runs : Runtime → ScanClass → List Run → Try (List NormalizedFinding)
unfolding rule_titles
normalize_runs rt scan_class [] = ok []
normalize_runs rt scan_class (run ∷ runs) = do
  fs ← normalize_results rt scan_class run.driver.name (rule_titles run.driver.rules []) run.results
  gs ← normalize_runs rt scan_class runs
  ok (fs ++ gs)

unfoldable pub normalize_sarif : Runtime → SarifLog → ScanClass → Try (List NormalizedFinding)
normalize_sarif rt sarif scan_class = normalize_runs rt scan_class sarif.runs

-- The loop over `f.sources`.
unfoldable pub add_sources : List String → List String → List String
add_sources existing [] = existing
add_sources existing (src ∷ srcs) =
    add_sources (if contains existing src then existing else existing ++ src ∷ []) srcs

-- A finding met again: the sources are merged, and the higher severity and score are kept.
unfoldable pub absorb : NormalizedFinding → NormalizedFinding → NormalizedFinding
absorb existing f = record existing {
  sources = add_sources existing.sources f.sources;
  severity =
      if ltb (severity_rank existing.severity) (severity_rank f.severity)
      then f.severity
      else existing.severity;
  chainability_score =
      if ltb existing.chainability_score f.chainability_score
      then f.chainability_score
      else existing.chainability_score;
}

-- One round of the loop of `dedup`.
unfoldable pub collapse_one : NormalizedFinding → Dict NormalizedFinding → Dict NormalizedFinding
collapse_one f by_fp = elim (lookup f.fingerprint by_fp) [
  | none ↦ insert f.fingerprint f by_fp
  | some existing ↦ insert f.fingerprint (absorb existing f) by_fp
]

-- The loop of `dedup` over the dict `by_fp`.
unfoldable pub collapse : Dict NormalizedFinding → List NormalizedFinding → Dict NormalizedFinding
unfolding collapse_one
collapse by_fp [] = by_fp
collapse by_fp (f ∷ fs) = collapse (collapse_one f by_fp) fs

-- `list(d.values())`
unfoldable pub values {ℓ} : {V : Type ℓ} → Dict V → List V
values [] = []
values ((k, v) ∷ d) = v ∷ values d

unfoldable pub dedup : List NormalizedFinding → List NormalizedFinding
unfolding collapse values
dedup findings = values (collapse [] findings)
