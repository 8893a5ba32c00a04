-- ===== src/Api/Iast/Collect.antt =====
-- The collector of api/services/iast.py: events of the agent become findings of the session's scan.
pub mod Repeated
use omniscan.Prelude.{ℕ, ◌+◌, String, ◌<>◌, ◌==◌, Option, none, some}
use omniscan.Prelude.{List, [], ◌∷◌, ◌++◌, map, select, contains, if◌then◌else◌}
use omniscan.Prelude.Text.{lower}
use omniscan.Prelude.Dict.{lookup}
use omniscan.Prelude.Try.{Try, ok, raise, iast_error}
use omniscan.Python.Json.{Json, JsonDict, json_truthy, null, boolean, str}
use omniscan.Core.Enums.{iast}
use omniscan.Core.Models.{Db, IastSession}
use omniscan.Core.World.{Exec, ◌>>=◌, ◌>>◌, pure, throw, lift, modify, new_id, clock}
use omniscan.Normalize.Runtime.{Runtime}
use omniscan.Normalize.Sarif.{Result}
use omniscan.Normalize.Fingerprint.{format}
use omniscan.Normalize.Finding.{NormalizedFinding, normalize_sarif, dedup}

-- `str(event.get(key, default))`
text_at : Runtime → String → String → JsonDict → String
text_at rt key default event = elim (lookup key event) [ none ↦ default | some v ↦ format rt v ]

-- `event.get(key)`
value_at : String → JsonDict → Json
value_at key event = elim (lookup key event) [ none ↦ null | some v ↦ v ]

level_of : String → String
level_of severity =
    if severity == "critical"
    then "error"
    else if severity == "high"
    then "error"
    else if severity == "medium"
    then "warning"
    else "note"

unfoldable pub event_to_result : Runtime → JsonDict → Result
unfolding text_at value_at level_of
event_to_result rt event =
    let sink = text_at rt "sink" "sink" event in
    let severity = lower (text_at rt "severity" "medium" event) in
    let tainted = json_truthy (value_at "tainted" event) in
    let route = value_at "route" event in
    let param = value_at "param" event in
    let source = if json_truthy param then format rt param else "request" in
    let flow = if tainted then source <> " → " <> sink else "reached " <> sink in
    record {
      rule_id = text_at rt "rule_id" ("IAST-" <> sink) event;
      level = level_of severity;
      message =
          if tainted
          then "Runtime: tainted source reached sink " <> sink
          else "Runtime: sink " <> sink <> " exercised";
      locations =
          record {
            physical_location = none;
            logical_locations = [];
            properties =
                ("file", value_at "file" event)
                ∷ ("start_line", value_at "line" event)
                ∷ ("symbol", value_at "function" event)
                ∷ ("route", route)
                ∷ ("param", param)
                ∷ ("sink", str sink)
                ∷ ("runtime_flow", str flow)
                ∷ ("tainted", boolean tainted)
                ∷ [];
          }
          ∷ [];
      properties =
          ("severity", str severity)
          ∷ ("tainted", boolean tainted)
          ∷ ("evidence", value_at "evidence" event)
          ∷ [];
    }

-- What the events come to: the findings of one SARIF run, without repetitions.
unfoldable pub normalized_events : Runtime → List JsonDict → Try (List NormalizedFinding)
normalized_events rt events =
    elim (normalize_sarif rt
      (record {
        runs =
            record {
              driver = record { name = "omniscan-iast"; rules = [] };
              properties = [];
              results = map (event_to_result rt) events;
            }
            ∷ [];
      })
      iast) [ raise e ↦ raise e | ok found ↦ ok (dedup found) ]

-- The fingerprints of the findings of a scan.
unfoldable pub recorded : String → Db → List String
recorded scan_id db = map (λ f. f.fingerprint) (select (λ f. f.scan_id == scan_id) db.findings)

-- One finding of the loop, which counts one.
unfoldable pub add_event : String → String → NormalizedFinding → Exec ℕ
unfolding new_id
add_event scan_id project_id nf = do
  id ← new_id "find"
  now ← clock
  modify (λ db. record db {
    findings =
        db.findings
        ++ record {
          id = id;
          scan_id = scan_id;
          project_id = project_id;
          scan_class = iast;
          fingerprint = nf.fingerprint;
          rule_id = nf.rule_id;
          title = nf.title;
          message = nf.message;
          severity = nf.severity;
          location = nf.location;
          sources = "iast-agent" ∷ [];
          extra = nf.extra;
          chainability_score = 0;
          first_seen = now;
          created_at = now;
        }
          ∷ [];
  })
  pure 1

-- The loop; `existing` is the set of fingerprints.
unfoldable pub collect : String → String → List String → List NormalizedFinding → Exec ℕ
collect scan_id project_id existing [] = pure 0
collect scan_id project_id existing (nf ∷ nfs) = do
  one ← if contains existing nf.fingerprint then pure 0 else add_event scan_id project_id nf
  rest ←
      collect scan_id project_id
        (if contains existing nf.fingerprint then existing else nf.fingerprint ∷ existing) nfs
  pure (one + rest)

-- The part of `ingest_events` behind the normalization.
unfoldable pub record_new : String → String → List NormalizedFinding → Exec ℕ
unfolding collect
record_new scan_id project_id nfs w = collect scan_id project_id (recorded scan_id w.db) nfs w

ingest_for : Runtime → Option String → String → List JsonDict → Exec ℕ
unfolding record_new normalized_events
ingest_for rt none project_id events = throw (iast_error "session has no collection scan")
ingest_for rt (some scan_id) project_id events = do
  nfs ← lift (normalized_events rt events)
  record_new scan_id project_id nfs

unfoldable pub ingest_events : Runtime → IastSession → List JsonDict → Exec ℕ
unfolding ingest_for
ingest_events rt s events = ingest_for rt s.scan_id s.project_id events
