-- ===== src/Engine/Scheduler/Execute.antt =====
-- `execute_scan`, `_run` and `_fail`.
use omniscan.Prelude.{String, not, ◌||◌, Option, none, some}
use omniscan.Prelude.{List, [], ◌∷◌, ◌++◌, if◌then◌else◌}
use omniscan.Prelude.Table.{find_by}
use omniscan.Prelude.Try.{Try, ok, raise, Exn, message}
use omniscan.Core.Enums.{sast, rvd, ScanStatus, JobStatus, same_class}
use omniscan.Core.Models.{Scan}
use omniscan.Core.World.{Exec, ◌>>=◌, ◌>>◌, pure, lift, modify, session_scope, new_id, clock}
use omniscan.Normalize.Finding.{NormalizedFinding, dedup}
use omniscan.Api.Webhooks.{notify_scan_completed}
use omniscan.Engine.Lifecycle.{same_status, assert_scan_transition, is_terminal_scan}
use omniscan.Engine.Planner.{PlannedJob, ScanPlan, plan}
use omniscan.Engine.Workspace.{prepare}
use omniscan.Engine.Scheduler.Platform.{
  Platform, scan_key, update_scan, load_scan, advance_scan, scope_of,
}
use omniscan.Engine.Scheduler.Job.{run_jobs}
use omniscan.Engine.Scheduler.Persist.{persist_findings}

-- The first session of `_run`: `none` where the scan is missing or not queued.
unfoldable pub begin_loaded : String → Option Scan → Exec (Option Scan)
begin_loaded scan_id none = pure none
begin_loaded scan_id (some scan) =
    if not (same_status scan.status ScanStatus.queued) then pure none else do
      lift (assert_scan_transition scan.status ScanStatus.planning)
      update_scan scan_id (λ s. record s { status = ScanStatus.planning })
      pure (some scan)

unfoldable pub begin_scan : String → Exec (Option Scan)
unfolding begin_loaded
begin_scan scan_id w = begin_loaded scan_id (find_by scan_key scan_id w.db.scans) w

abbrev pub plan_scan : Platform → Scan → Try ScanPlan
plan_scan p scan =
    let scope = scope_of scan.request in
    plan p.registry scan.scan_class scan.request.tools scan.request.source scan.request.target
      scope.ownership_verified scope.allow scope.deny

-- The checkout, for scans of source.
unfoldable pub prepare_scan : Platform → Scan → Try (Option String)
prepare_scan p scan =
    if same_class scan.scan_class sast || same_class scan.scan_class rvd
    then prepare p.machine scan.request.source
    else ok none

-- One row of the table of jobs, and its identifier.
unfoldable pub add_job : String → PlannedJob → Exec String
unfolding new_id
add_job scan_id pj = do
  job_id ← new_id "job"
  now ← clock
  modify (λ db. record db {
    jobs =
        db.jobs
        ++ record {
          id = job_id;
          scan_id = scan_id;
          adapter = pj.adapter;
          scan_class = pj.scan_class;
          status = JobStatus.queued;
          raw_output_ref = none;
          error = none;
          created_at = now;
        }
          ∷ [];
  })
  pure job_id

unfoldable pub create_jobs : String → List PlannedJob → Exec (List String)
unfolding add_job
create_jobs scan_id [] = pure []
create_jobs scan_id (pj ∷ jobs) = do
  job_id ← add_job scan_id pj
  ids ← create_jobs scan_id jobs
  pure (job_id ∷ ids)

-- The session that creates the jobs and moves the scan to running.
unfoldable pub start_jobs : String → List PlannedJob → Exec (List String)
unfolding advance_scan create_jobs
start_jobs scan_id jobs = do
  scan ← load_scan scan_id
  ids ← create_jobs scan_id jobs
  advance_scan scan_id ScanStatus.running
  pure ids

-- The last session of `_run`; an exception of the notification is only logged.
unfoldable pub notify_found : Platform → Option Scan → Exec (Unit {0})
notify_found p none w = (ok tt, w)
notify_found p (some scan) w = (ok tt, (notify_scan_completed p.courier scan w).1)

unfoldable pub notify : Platform → String → Exec (Unit {0})
unfolding notify_found
notify p scan_id w = notify_found p (find_by scan_key scan_id w.db.scans) w

-- The end of `_run`, from the normalize phase on.
unfoldable pub conclude : Platform → Scan → List NormalizedFinding → Exec (Unit {0})
unfolding persist_findings notify
conclude p scan all_findings = do
  session_scope (advance_scan scan.id ScanStatus.normalizing)
  persist_findings scan.id scan.project_id (dedup all_findings)
  session_scope (advance_scan scan.id ScanStatus.completed)
  session_scope (notify p scan.id)

-- The middle of `_run`: the jobs of a plan.
unfoldable pub run_planned : Platform → Scan → ScanPlan → Option String → Exec (Unit {0})
unfolding start_jobs run_jobs conclude
run_planned p scan planned workspace_path = do
  job_ids ← session_scope (start_jobs scan.id planned.jobs)
  all_findings ← run_jobs p scan workspace_path job_ids
  conclude p scan all_findings

-- `_run` behind its first session, with the scan as that session read it.
unfoldable pub run_queued : Platform → Scan → Exec (Unit {0})
unfolding run_planned
run_queued p scan = do
  planned ← lift (plan_scan p scan)
  workspace_path ← lift (prepare_scan p scan)
  run_planned p scan planned workspace_path

unfoldable pub run_begun : Platform → Option Scan → Exec (Unit {0})
unfolding run_queued
run_begun p none = pure tt
run_begun p (some scan) = run_queued p scan

-- `_run`
unfoldable pub run_scan : Platform → String → Exec (Unit {0})
unfolding begin_scan run_begun
run_scan p scan_id = do begun ← session_scope (begin_scan scan_id); run_begun p begun

-- `_fail`
unfoldable pub fail_found : Platform → String → Exn → Option Scan → Exec (Unit {0})
fail_found p scan_id exc none = pure tt
fail_found p scan_id exc (some scan) =
    if is_terminal_scan scan.status
    then pure tt
    else update_scan scan_id
        (λ s. record s { status = ScanStatus.failed; error = some (p.redact (message exc)) })

unfoldable pub fail_scan : Platform → String → Exn → Exec (Unit {0})
unfolding fail_found
fail_scan p scan_id exc =
    session_scope (λ w. fail_found p scan_id exc (find_by scan_key scan_id w.db.scans) w)

unfoldable pub guarded : Platform → String → Try (Unit {0}) → Exec (Unit {0})
unfolding fail_scan
guarded p scan_id (ok u) = pure tt
guarded p scan_id (raise exc) = fail_scan p scan_id exc

-- `execute_scan`: an exception of `_run` marks the scan as failed.
unfoldable pub execute_scan : Platform → String → Exec (Unit {0})
unfolding run_scan guarded
execute_scan p scan_id w = let (r, v) = run_scan p scan_id w in guarded p scan_id r v
