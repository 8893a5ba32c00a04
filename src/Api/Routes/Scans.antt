-- ===== src/Api/Routes/Scans.antt =====
-- api/routes/scans.py: dry runs, creation, and what is shown of a scan.
use omniscan.Prelude.{ℕ, String, ◌<>◌, Option, none, some, List, map}
use omniscan.Prelude.Try.{Try, ok, raise}
use omniscan.Core.Enums.{ScanClass, ScanStatus, JobStatus}
use omniscan.Core.Models.{Db, Scan, ScanJob}
use omniscan.Core.World.{Exec, ◌>>=◌, gets}
use omniscan.Adapters.Registry.{Registry}
use omniscan.Api.Errors.{not_found}
use omniscan.Api.Projects.{resolve_scope}
use omniscan.Api.Scans.{
  ScanCreate, source_of, target_of, create_scan, get_scan, list_scans, get_jobs,
}
use omniscan.Engine.Planner.{ScanPlan, plan}

pub record JobOut : Type 0 where
  pub id : String
  pub adapter : String
  pub scan_class : ScanClass
  pub status : JobStatus

pub record ScanOut : Type 0 where
  pub id : String
  pub project_id : String
  pub scan_class : ScanClass
  pub status : ScanStatus
  pub correlation_id : String
  pub error : Option String
  pub created_at : ℕ
  pub jobs : List JobOut

abbrev pub job_out : ScanJob → JobOut
job_out j = record { id = j.id; adapter = j.adapter; scan_class = j.scan_class; status = j.status }

-- `_to_out`
unfoldable pub scan_out : Db → Scan → ScanOut
unfolding get_jobs
scan_out db scan = record {
  id = scan.id;
  project_id = scan.project_id;
  scan_class = scan.scan_class;
  status = scan.status;
  correlation_id = scan.correlation_id;
  error = scan.error;
  created_at = scan.created_at;
  jobs = map job_out (get_jobs db scan.id);
}

-- `create_scan` with `dry_run`: the plan, whose class and adapters are shown.
unfoldable pub dry_run : Registry → Db → ScanCreate → Try ScanPlan
unfolding plan resolve_scope
dry_run adapters db body =
    let scope = resolve_scope db body.project_id body.scope in
    plan adapters body.scan_class body.tools (source_of body) (target_of body)
      scope.ownership_verified scope.allow scope.deny

-- `create_scan` without it; the scan that is shown is the one that is enqueued.
unfoldable pub create_out : ScanCreate → Exec ScanOut
unfolding create_scan scan_out
create_out body = do scan ← create_scan body; gets (λ db. scan_out db scan)

unfoldable pub list_out : Db → Option String → List ScanOut
unfolding list_scans scan_out
list_out db project_id = map (scan_out db) (list_scans db project_id)

unfoldable pub get_out : Db → String → Try ScanOut
unfolding get_scan scan_out
get_out db scan_id = elim (get_scan db scan_id) [
  | none ↦ raise (not_found ("unknown scan: " <> scan_id))
  | some scan ↦ ok (scan_out db scan)
]
