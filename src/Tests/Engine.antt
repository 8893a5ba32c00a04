-- ===== src/Tests/Engine.antt =====
-- The theorems of engine/ at concrete inputs.
use omniscan.Prelude.{◌≡◌, ◌≢◌, refl, ◌↔◌, ◌⊎◌, ◌≤◌, true, none, List, [], ◌∷◌, length}
use omniscan.Prelude.Table.{find_by}
use omniscan.Prelude.Try.{ok}
use omniscan.Core.Enums.{sast, ScanStatus, JobStatus}
use omniscan.Engine.Lifecycle.{assert_scan_transition, assert_job_transition}
use omniscan.Engine.Lifecycle.Diagram.{
  DrawnScan, EarlyScan, DrawnJob, EarlyJob, Accepted, last_status, assert_scan_transition_iff,
  queued_path, assert_job_transition_iff,
}
use omniscan.Engine.Planner.{ScanPlan, planned, plan}
use omniscan.Engine.Planner.Laws.{Plannable, plan_iff}
use omniscan.Engine.Scheduler.Execute.{execute_scan}
use omniscan.Engine.Scheduler.Terminal.{Status}
use omniscan.Engine.Scheduler.Idempotent.{Ended, execute_scan_ends, execute_scan_idem}
use omniscan.Tests.Data.{platform, registry, world, scan, git_source, no_target}

waiting : Status "scan_1" ScanStatus.queued world.db
unfolding find_by
waiting = (scan, refl, refl)

execute_scan_ends_example : Ended "scan_1" (execute_scan platform "scan_1" world)
execute_scan_ends_example = execute_scan_ends platform "scan_1" world waiting

execute_scan_idem_example :
    let v = (execute_scan platform "scan_1" world).1 in
    execute_scan platform "scan_1" v ≡ (ok tt, v)
execute_scan_idem_example = execute_scan_idem platform "scan_1" world

abbrev job_plan : ScanPlan
job_plan = record { scan_class = sast; jobs = planned sast "demoscan" ∷ [] }

plan_iff_example :
    (plan registry sast none git_source no_target true ("git.example.com" ∷ []) [] ≡ ok job_plan)
    ↔ Plannable registry sast none git_source no_target true ("git.example.com" ∷ []) [] job_plan
plan_iff_example =
    plan_iff registry sast none git_source no_target true ("git.example.com" ∷ []) [] job_plan

assert_scan_transition_iff_example :
    (assert_scan_transition ScanStatus.queued ScanStatus.failed ≡ ok tt) ↔ (
      DrawnScan ScanStatus.queued ScanStatus.failed × (ScanStatus.failed ≢ ScanStatus.cancelled)
      ⊎ EarlyScan ScanStatus.queued ScanStatus.failed)
assert_scan_transition_iff_example = assert_scan_transition_iff ScanStatus.queued ScanStatus.failed

assert_job_transition_iff_example :
    (assert_job_transition JobStatus.queued JobStatus.running ≡ ok tt) ↔ (
      DrawnJob JobStatus.queued JobStatus.running × (JobStatus.running ≢ JobStatus.cancelled)
      ⊎ EarlyJob JobStatus.queued JobStatus.running)
assert_job_transition_iff_example = assert_job_transition_iff JobStatus.queued JobStatus.running

abbrev whole_route : List ScanStatus
whole_route =
    ScanStatus.planning ∷ ScanStatus.running ∷ ScanStatus.normalizing ∷ ScanStatus.completed ∷ []

whole_route-Accepted : Accepted ScanStatus.queued whole_route
unfolding assert_scan_transition
whole_route-Accepted = (refl, (refl, (refl, (refl, tt))))

queued_path_example :
    (length whole_route ≤ 4)
    × (last_status ScanStatus.queued whole_route ≡ ScanStatus.completed → whole_route ≡ whole_route)
queued_path_example = queued_path whole_route whole_route-Accepted
