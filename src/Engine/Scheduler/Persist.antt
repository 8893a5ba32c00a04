-- ===== src/Engine/Scheduler/Persist.antt =====
-- `_persist_findings`: the findings become rows, and RVD findings are embargoed.
use omniscan.Prelude.{ℕ, String, none, some}
use omniscan.Prelude.{List, [], ◌∷◌, ◌++◌, if◌then◌else◌}
use omniscan.Core.Enums.{ScanClass, rvd, TriageStatus, same_class}
use omniscan.Core.Models.{Finding}
use omniscan.Core.World.{Exec, ◌>>=◌, ◌>>◌, pure, modify, session_scope, new_id, clock}
use omniscan.Normalize.Finding.{NormalizedFinding}

abbrev pub finding_of : String → String → String → ℕ → NormalizedFinding → Finding
finding_of id scan_id project_id now nf = record {
  id = id;
  scan_id = scan_id;
  project_id = project_id;
  scan_class = nf.scan_class;
  fingerprint = nf.fingerprint;
  rule_id = nf.rule_id;
  title = nf.title;
  message = nf.message;
  severity = nf.severity;
  location = nf.location;
  sources = nf.sources;
  extra = nf.extra;
  chainability_score = nf.chainability_score;
  first_seen = now;
  created_at = now;
}

-- RVD findings are embargoed until a triager reviews them.
unfoldable pub embargo : ScanClass → String → Exec (Unit {0})
unfolding new_id
embargo scan_class finding_id =
    if same_class scan_class rvd
    then (do
      id ← new_id "tri"
      now ← clock
      modify (λ db. record db {
        triage_records =
            db.triage_records
            ++ record {
              id = id;
              finding_id = finding_id;
              status = TriageStatus.embargoed;
              severity_override = none;
              assignee_id = none;
              reason = some "RVD finding embargoed pending triage";
              actor_id = "system";
              created_at = now;
            }
              ∷ [];
      }))
    else pure tt

-- One row of the table of findings, and its identifier.
unfoldable pub add_finding : String → String → NormalizedFinding → Exec String
unfolding new_id
add_finding scan_id project_id nf = do
  id ← new_id "find"
  now ← clock
  modify
      (λ db. record db { findings = db.findings ++ finding_of id scan_id project_id now nf ∷ [] })
  pure id

unfoldable pub persist : String → String → List NormalizedFinding → Exec (Unit {0})
unfolding add_finding embargo
persist scan_id project_id [] = pure tt
persist scan_id project_id (nf ∷ findings) = do
  id ← add_finding scan_id project_id nf
  embargo nf.scan_class id
  persist scan_id project_id findings

-- `_persist_findings`
unfoldable pub persist_findings : String → String → List NormalizedFinding → Exec (Unit {0})
unfolding persist
persist_findings scan_id project_id findings = session_scope (persist scan_id project_id findings)
