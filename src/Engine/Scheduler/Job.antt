-- ===== src/Engine/Scheduler/Job.antt =====
-- `_run_job`: one adapter's run and the sessions around it.
use omniscan.Prelude.{String, Option, some}
use omniscan.Prelude.{List, [], ◌∷◌, ◌++◌}
use omniscan.Prelude.Try.{Try, ok, raise, Exn, message}
use omniscan.Core.Enums.{JobStatus}
use omniscan.Core.Models.{Scan}
use omniscan.Core.World.{Exec, ◌>>=◌, ◌>>◌, pure, lift, session_scope}
use omniscan.Normalize.Finding.{NormalizedFinding}
use omniscan.Adapters.Registry
use omniscan.Adapters.Registry.{Registry}
use omniscan.Engine.Scheduler.Platform.{Platform, update_job, load_job, advance_job}
use omniscan.Engine.Scheduler.Attempt.{scan_request_for, scan_with}

-- The two sessions that may end a job.
unfoldable pub fail_job : Platform → String → Exn → Exec (List NormalizedFinding)
unfolding load_job
fail_job p job_id exc = session_scope (do
  job ← load_job job_id
  update_job job_id
      (λ j. record j { status = JobStatus.failed; error = some (p.redact (message exc)) })
  pure [])

unfoldable pub complete_job :
    String → String → List NormalizedFinding → Exec (List NormalizedFinding)
unfolding advance_job
complete_job job_id raw_ref normalized = session_scope (do
  job ← load_job job_id
  update_job job_id (λ j. record j { raw_output_ref = some raw_ref })
  a ← advance_job job_id JobStatus.normalizing
  b ← advance_job job_id JobStatus.completed
  pure normalized)

unfoldable pub finish_job :
    Platform → String → Try (String × List NormalizedFinding) → Exec (List NormalizedFinding)
unfolding fail_job complete_job
finish_job p job_id (ok (raw_ref, normalized)) = complete_job job_id raw_ref normalized
finish_job p job_id (raise exc) = fail_job p job_id exc

-- `_run_job`
unfoldable pub run_job : Platform → Scan → Option String → String → Exec (List NormalizedFinding)
unfolding finish_job advance_job
run_job p scan workspace_path job_id = do
  job ← session_scope (advance_job job_id JobStatus.running)
  adapter ← lift (Registry.get p.registry job.adapter)
  finish_job p job_id
      (scan_with p adapter (scan_request_for scan job_id job.adapter workspace_path))

-- The loop over the jobs, which collects their findings.
unfoldable pub run_jobs :
    Platform → Scan → Option String → List String → Exec (List NormalizedFinding)
unfolding run_job
run_jobs p scan workspace_path [] = pure []
run_jobs p scan workspace_path (job_id ∷ job_ids) = do
  findings ← run_job p scan workspace_path job_id
  others ← run_jobs p scan workspace_path job_ids
  pure (findings ++ others)
