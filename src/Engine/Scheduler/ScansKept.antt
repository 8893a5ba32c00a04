-- ===== src/Engine/Scheduler/ScansKept.antt =====
-- The parts of the scheduler that leave the table of scans alone.
use omniscan.Prelude.{String, ◌≡◌, Option, none, some, List, [], ◌∷◌}
use omniscan.Prelude.Try.{Try, ok, raise, Exn}
use omniscan.Core.Enums.{ScanClass, JobStatus}
use omniscan.Core.Models.{Db, Scan}
use omniscan.Core.World.Keeps.{Keeps, keeps_rules, Keeps-bind, Keeps-pure}
use omniscan.Normalize.Finding.{NormalizedFinding}
use omniscan.Engine.Planner.{PlannedJob}
use omniscan.Engine.Scheduler.Platform.{Platform, found, load_job, advance_job}
use omniscan.Engine.Scheduler.Job.{fail_job, complete_job, finish_job, run_job, run_jobs}
use omniscan.Engine.Scheduler.Persist.{add_finding, embargo, persist, persist_findings}
use omniscan.Engine.Scheduler.Execute.{add_job, create_jobs}

-- The scans are these.
abbrev pub ScansAre : List Scan → Db → Type 0
ScansAre scans db = db.scans ≡ scans

module _ (scans : List Scan) where
  found-kept {ℓ} : {A : Type ℓ} (o : Option A) → Keeps (ScansAre scans) (found o)
  found-kept none = search keeps_rules
  found-kept (some a) = search keeps_rules

  load_job-kept : (job_id : String) → Keeps (ScansAre scans) (load_job job_id)
  unfolding load_job
  load_job-kept job_id = record { at = λ w h. (found-kept _).at w h }

  advance_job-kept :
      (job_id : String) (t : JobStatus) → Keeps (ScansAre scans) (advance_job job_id t)
  unfolding advance_job
  advance_job-kept job_id t = search (keeps_rules, load_job-kept)

  fail_job-kept :
      (p : Platform) (job_id : String) (e : Exn) → Keeps (ScansAre scans) (fail_job p job_id e)
  unfolding fail_job
  fail_job-kept p job_id e = search (keeps_rules, load_job-kept)

  complete_job-kept :
      (job_id raw_ref : String) (normalized : List NormalizedFinding)
      → Keeps (ScansAre scans) (complete_job job_id raw_ref normalized)
  unfolding complete_job
  complete_job-kept job_id raw_ref normalized =
      search (keeps_rules, load_job-kept, advance_job-kept) depth 14

  finish_job-kept :
      (p : Platform) (job_id : String) (r : Try (String × List NormalizedFinding))
      → Keeps (ScansAre scans) (finish_job p job_id r)
  unfolding finish_job
  finish_job-kept p job_id (ok (raw_ref, fs)) = complete_job-kept job_id raw_ref fs
  finish_job-kept p job_id (raise e) = fail_job-kept p job_id e

  run_job-kept :
      (p : Platform) (scan : Scan) (path : Option String) (job_id : String)
      → Keeps (ScansAre scans) (run_job p scan path job_id)
  unfolding run_job
  run_job-kept p scan path job_id = search (keeps_rules, advance_job-kept, finish_job-kept)

  -- No job changes a row of the table of scans.
  pub run_jobs-kept :
      (p : Platform) (scan : Scan) (path : Option String) (job_ids : List String)
      → Keeps (ScansAre scans) (run_jobs p scan path job_ids)
  unfolding run_jobs
  run_jobs-kept p scan path [] = search keeps_rules
  run_jobs-kept p scan path (job_id ∷ job_ids) =
      Keeps-bind (run_job p scan path job_id) _ (run_job-kept p scan path job_id) λ found_here.
        Keeps-bind (run_jobs p scan path job_ids) _ (run_jobs-kept p scan path job_ids)
          λ others. Keeps-pure _

  embargo-kept : (c : ScanClass) (id : String) → Keeps (ScansAre scans) (embargo c id)
  unfolding embargo
  embargo-kept c id = search keeps_rules

  add_finding-kept :
      (scan_id project_id : String) (f : NormalizedFinding)
      → Keeps (ScansAre scans) (add_finding scan_id project_id f)
  unfolding add_finding
  add_finding-kept scan_id project_id f = search keeps_rules depth 14

  persist-kept :
      (scan_id project_id : String) (fs : List NormalizedFinding)
      → Keeps (ScansAre scans) (persist scan_id project_id fs)
  unfolding persist
  persist-kept scan_id project_id [] = search keeps_rules
  persist-kept scan_id project_id (f ∷ fs) =
      Keeps-bind (add_finding scan_id project_id f) _ (add_finding-kept scan_id project_id f) λ id.
        Keeps-bind (embargo f.scan_class id) _ (embargo-kept f.scan_class id)
          λ done. persist-kept scan_id project_id fs

  pub persist_findings-kept :
      (scan_id project_id : String) (fs : List NormalizedFinding)
      → Keeps (ScansAre scans) (persist_findings scan_id project_id fs)
  unfolding persist_findings
  persist_findings-kept scan_id project_id fs = search (keeps_rules, persist-kept)

  add_job-kept : (scan_id : String) (pj : PlannedJob) → Keeps (ScansAre scans) (add_job scan_id pj)
  unfolding add_job
  add_job-kept scan_id pj = search keeps_rules depth 14

  pub create_jobs-kept :
      (scan_id : String) (jobs : List PlannedJob)
      → Keeps (ScansAre scans) (create_jobs scan_id jobs)
  unfolding create_jobs
  create_jobs-kept scan_id [] = search keeps_rules
  create_jobs-kept scan_id (j ∷ jobs) =
      Keeps-bind (add_job scan_id j) _ (add_job-kept scan_id j) λ id.
        Keeps-bind (create_jobs scan_id jobs) _ (create_jobs-kept scan_id jobs)
          λ ids. Keeps-pure (id ∷ ids)
