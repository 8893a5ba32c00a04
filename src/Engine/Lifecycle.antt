-- ===== src/Engine/Lifecycle.antt =====
-- engine/lifecycle.py: the state machines of scans and jobs.
pub mod Diagram
use omniscan.Prelude.{String, ◌<>◌, Bool, true, false, List, [], ◌∷◌, any, is_nil, if◌then◌else◌}
use omniscan.Prelude.Try.{Try, ok, raise, invalid_transition}
use omniscan.Core.Enums.{ScanStatus, JobStatus, status_value}

-- `_SCAN_TRANSITIONS`
unfoldable pub scan_transitions : ScanStatus → List ScanStatus
scan_transitions ScanStatus.queued =
    ScanStatus.planning ∷ ScanStatus.cancelled ∷ ScanStatus.failed ∷ []
scan_transitions ScanStatus.planning =
    ScanStatus.running ∷ ScanStatus.failed ∷ ScanStatus.cancelled ∷ []
scan_transitions ScanStatus.running =
    ScanStatus.normalizing ∷ ScanStatus.failed ∷ ScanStatus.cancelled ∷ []
scan_transitions ScanStatus.normalizing = ScanStatus.completed ∷ ScanStatus.failed ∷ []
scan_transitions ScanStatus.completed = []
scan_transitions ScanStatus.failed = []
scan_transitions ScanStatus.cancelled = []

-- `_JOB_TRANSITIONS`
unfoldable pub job_transitions : JobStatus → List JobStatus
job_transitions JobStatus.queued = JobStatus.running ∷ JobStatus.cancelled ∷ JobStatus.failed ∷ []
job_transitions JobStatus.running =
    JobStatus.normalizing ∷ JobStatus.failed ∷ JobStatus.cancelled ∷ []
job_transitions JobStatus.normalizing = JobStatus.completed ∷ JobStatus.failed ∷ []
job_transitions JobStatus.completed = []
job_transitions JobStatus.failed = []
job_transitions JobStatus.cancelled = []

abbrev pub same_status : ScanStatus → ScanStatus → Bool
same_status ScanStatus.queued ScanStatus.queued = true
same_status ScanStatus.planning ScanStatus.planning = true
same_status ScanStatus.running ScanStatus.running = true
same_status ScanStatus.normalizing ScanStatus.normalizing = true
same_status ScanStatus.completed ScanStatus.completed = true
same_status ScanStatus.failed ScanStatus.failed = true
same_status ScanStatus.cancelled ScanStatus.cancelled = true
same_status _ _ = false

abbrev pub same_job_status : JobStatus → JobStatus → Bool
same_job_status JobStatus.queued JobStatus.queued = true
same_job_status JobStatus.running JobStatus.running = true
same_job_status JobStatus.normalizing JobStatus.normalizing = true
same_job_status JobStatus.completed JobStatus.completed = true
same_job_status JobStatus.failed JobStatus.failed = true
same_job_status JobStatus.cancelled JobStatus.cancelled = true
same_job_status _ _ = false

unfoldable pub job_status_value : JobStatus → String
job_status_value JobStatus.queued = "queued"
job_status_value JobStatus.running = "running"
job_status_value JobStatus.normalizing = "normalizing"
job_status_value JobStatus.completed = "completed"
job_status_value JobStatus.failed = "failed"
job_status_value JobStatus.cancelled = "cancelled"

unfoldable pub assert_scan_transition : ScanStatus → ScanStatus → Try (Unit {0})
unfolding scan_transitions
assert_scan_transition current target =
    if any (same_status target) (scan_transitions current)
    then ok tt
    else raise (
        invalid_transition
          ("scan: " <> status_value current <> " -> " <> status_value target <> " not allowed"))

unfoldable pub assert_job_transition : JobStatus → JobStatus → Try (Unit {0})
unfolding job_transitions
assert_job_transition current target =
    if any (same_job_status target) (job_transitions current)
    then ok tt
    else raise (
        invalid_transition (
          "job: "
          <> job_status_value current
          <> " -> "
          <> job_status_value target
          <> " not allowed"))

unfoldable pub is_terminal_scan : ScanStatus → Bool
unfolding scan_transitions
is_terminal_scan status = is_nil (scan_transitions status)
