-- ===== src/Engine/Scheduler/Platform.antt =====
-- What the scheduler runs on, and the moves of scans and jobs inside a session.
use omniscan.Prelude.{String, false, Option, none, some}
use omniscan.Prelude.{[]}
use omniscan.Prelude.Table.{find_by, update_by}
use omniscan.Prelude.Try.{Try, assertion_error}
use omniscan.Core.Enums.{ScanStatus, JobStatus}
use omniscan.Core.Models.{Request, Scope, Scan, ScanJob}
use omniscan.Core.World.{Exec, ◌>>=◌, ◌>>◌, pure, throw, lift, modify}
use omniscan.Normalize.Runtime.{Runtime}
use omniscan.Adapters.Registry.{Registry}
use omniscan.Adapters.Runner.{Docker}
use omniscan.Api.Webhooks.{Courier}
use omniscan.Engine.Lifecycle.{assert_scan_transition, assert_job_transition}
use omniscan.Engine.Workspace.{Machine}

-- `redact` masks a text; `store` is `objectstore.put` under a key, which may raise.
pub record Platform : Type 0 where
  pub registry : Registry
  pub machine : Machine
  pub runtime : Runtime
  pub docker : Docker
  pub courier : Courier
  pub redact : String → String
  pub store : String → String → Try String

abbrev pub scan_key : Scan → String
scan_key s = s.id

abbrev pub job_key : ScanJob → String
job_key j = j.id

abbrev pub update_scan : String → (Scan → Scan) → Exec (Unit {0})
update_scan scan_id f = modify (λ db. record db { scans = update_by scan_key scan_id f db.scans })

abbrev pub update_job : String → (ScanJob → ScanJob) → Exec (Unit {0})
update_job job_id f = modify (λ db. record db { jobs = update_by job_key job_id f db.jobs })

-- `s.get(...)` and `assert ... is not None`
abbrev pub found {ℓ} : {A : Type ℓ} → Option A → Exec A
found none = throw (assertion_error "")
found (some a) = pure a

unfoldable pub load_scan : String → Exec Scan
load_scan scan_id w = found (find_by scan_key scan_id w.db.scans) w

unfoldable pub load_job : String → Exec ScanJob
load_job job_id w = found (find_by job_key job_id w.db.jobs) w

-- The session that moves a scan to its next status.
unfoldable pub advance_scan : String → ScanStatus → Exec (Unit {0})
unfolding load_scan
advance_scan scan_id target = do
  scan ← load_scan scan_id
  lift (assert_scan_transition scan.status target)
  update_scan scan_id (λ s. record s { status = target })

-- The move of a job inside a session.
unfoldable pub advance_job : String → JobStatus → Exec ScanJob
unfolding load_job
advance_job job_id target = do
  job ← load_job job_id
  lift (assert_job_transition job.status target)
  update_job job_id (λ j. record j { status = target })
  pure job

-- `req.get("_scope", {})` and its defaults.
abbrev pub scope_of : Request → Scope
scope_of req = elim req.scope [
  | none ↦ record { allow = []; deny = []; ownership_verified = false }
  | some scope ↦ scope
]
