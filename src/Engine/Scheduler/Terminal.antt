-- ===== src/Engine/Scheduler/Terminal.antt =====
-- Every execution of a scan ends, and the scan with it: the status is followed through the
-- sessions of `_run`, and through the handler of `execute_scan`.
use omniscan.Prelude.{String, ◌<>◌, ◌≡◌, refl, false, Option, some}
use omniscan.Prelude.{List, [], ◌∷◌}
use omniscan.Prelude.Table.{find_by, update_by, find_by-update_by_self}
use omniscan.Prelude.Try.{Try, ok, raise}
use omniscan.Core.Enums.{ScanStatus}
use omniscan.Core.Models.{Db, Scan}
use omniscan.Core.World.{World, Exec, continue, session_scope}
use omniscan.Api.Webhooks.{notify_scan_completed}
use omniscan.Engine.Lifecycle.{assert_scan_transition, is_terminal_scan}
use omniscan.Engine.Planner.{PlannedJob, ScanPlan}
use omniscan.Engine.Scheduler.Platform.{Platform, scan_key, load_scan, advance_scan}
use omniscan.Engine.Scheduler.Job.{run_jobs}
use omniscan.Engine.Scheduler.Persist.{persist_findings}
use omniscan.Engine.Scheduler.Execute.{
  add_job, create_jobs, start_jobs, notify, plan_scan, prepare_scan, conclude, run_planned,
  run_queued,
}
use omniscan.Engine.Scheduler.ScansKept.{run_jobs-kept, persist_findings-kept, create_jobs-kept}
use omniscan.Normalize.Finding.{NormalizedFinding, dedup}

-- The scan's row has the status.
abbrev pub Status : String → ScanStatus → Db → Type 0
Status scan_id st db = (s : Scan) × (find_by scan_key scan_id db.scans ≡ some s) × (s.status ≡ st)

-- The scan's row has a status that is not terminal.
abbrev pub Live : String → Db → Type 0
Live scan_id db =
    (s : Scan) × (find_by scan_key scan_id db.scans ≡ some s) × (is_terminal_scan s.status ≡ false)

-- A run that returns has completed the scan, and one that raises has left it live.
abbrev pub Ends {ℓ} : {A : Type ℓ} → String → Try A × World → Type 0
Ends scan_id (ok a, w) = Status scan_id ScanStatus.completed w.db
Ends scan_id (raise e, w) = Live scan_id w.db

module _ (scan_id : String) where
  -- A step behind which the scan is live, whatever it does.
  Ends-continue {ℓ κ} :
      {A : Type ℓ} {B : Type κ} (r : Try A) (f : A → Exec B) (v : World)
      → Live scan_id v.db
      → ((a : A) → r ≡ ok a → Ends scan_id (f a v))
      → Ends scan_id (continue r f v)
  Ends-continue (ok a) f v live next = next a refl
  Ends-continue (raise e) f v live next = live

  Status-scans :
      (st : ScanStatus) (d e : Db) → e.scans ≡ d.scans → Status scan_id st d → Status scan_id st e
  Status-scans st d e same (s, found, at) = (s, rw same found, at)

  Status-Live :
      (st : ScanStatus) (d : Db)
      → is_terminal_scan st ≡ false
      → Status scan_id st d
      → Live scan_id d
  Status-Live st d live (s, found, at) = (s, found, rw at live)

  abbrev pub moved : ScanStatus → World → World
  moved to w = record w {
    db = record w.db {
      scans = update_by scan_key scan_id (λ s. record s { status = to }) w.db.scans;
    };
  }

  load_scan-found :
      (w : World) (s : Scan)
      → find_by scan_key scan_id w.db.scans ≡ some s
      → load_scan scan_id w ≡ (ok s, w)
  unfolding load_scan
  load_scan-found w s found = rw found

  -- Inside a session a scan advances along an edge of the lifecycle.
  advance_lem :
      (from to : ScanStatus) (w : World)
      → assert_scan_transition from to ≡ ok tt
      → Status scan_id from w.db
      → advance_scan scan_id to w ≡ (ok tt, moved to w)
  unfolding advance_scan
  advance_lem from to w edge (s, found, at) = rw (load_scan-found w s found, at, edge)

  pub moved-Status :
      (from to : ScanStatus) (w : World)
      → Status scan_id from w.db
      → Status scan_id to (moved to w).db
  moved-Status from to w (s, found, at) = (
    record s { status = to },
    find_by-update_by_self scan_key scan_id (λ s. record s { status = to }) w.db.scans (λ s. refl) s
        found,
    refl,
  )

  pub session-ok {ℓ} :
      {A : Type ℓ} (m : Exec A) (a : A) (w v : World)
      → m w ≡ (ok a, v)
      → session_scope m w ≡ (ok a, v)
  unfolding session_scope
  session-ok m a w v e = rw e

  create_jobs_ok :
      (jobs : List PlannedJob) (w : World)
      → (ids : List String) × ((create_jobs scan_id jobs w).0 ≡ ok ids)
  unfolding create_jobs
  create_jobs_ok [] w = ([], refl)
  create_jobs_ok (j ∷ jobs) w =
      let (ids, e) = create_jobs_ok jobs (add_job scan_id j w).1 in
      (("job" <> "_" <> w.rand w.draws) ∷ ids, rw e)

  start_ok :
      (jobs : List PlannedJob) (w : World)
      → Status scan_id ScanStatus.planning w.db
      → (ids : List String) × (v : World) × (session_scope (start_jobs scan_id jobs) w
          ≡ (ok ids, v))
        × Status scan_id ScanStatus.running v.db
  unfolding start_jobs assert_scan_transition
  start_ok jobs w st =
      let (s, found, at) = st in
      let (ids, e) = create_jobs_ok jobs w in
      let v = (create_jobs scan_id jobs w).1 in
      let same = (create_jobs-kept w.db.scans scan_id jobs).at w refl in
      let sv = Status-scans ScanStatus.planning w.db v.db same st in
      (
        ids,
        moved ScanStatus.running v,
        session-ok (start_jobs scan_id jobs) ids w (moved ScanStatus.running v) (
            rw (
              load_scan-found w s found,
              e,
              advance_lem ScanStatus.planning ScanStatus.running v refl sv,
            )),
        moved-Status ScanStatus.planning ScanStatus.running v sv,
      )

module _ (p : Platform) (scan : Scan) where
  notify-Ends :
      (w : World)
      → Status scan.id ScanStatus.completed w.db
      → Ends scan.id (session_scope (notify p scan.id) w)
  unfolding notify session_scope notify_scan_completed
  notify-Ends w (s, found, at) = rw found (s, found, at)

  conclude-Ends :
      (fs : List NormalizedFinding) (w : World)
      → Status scan.id ScanStatus.running w.db
      → Ends scan.id (conclude p scan fs w)
  unfolding conclude assert_scan_transition is_terminal_scan
  conclude-Ends fs w st =
      let n = moved scan.id ScanStatus.normalizing w in
      let sn = moved-Status scan.id ScanStatus.running ScanStatus.normalizing w st in
      let persisting = persist_findings scan.id scan.project_id (dedup fs) in
      let v = (persisting n).1 in
      let same = (persist_findings-kept n.db.scans scan.id scan.project_id (dedup fs)).at n refl in
      let sv = Status-scans scan.id ScanStatus.normalizing n.db v.db same sn in
      rw
        (session-ok scan.id (advance_scan scan.id ScanStatus.normalizing) tt w n
          (advance_lem scan.id ScanStatus.running ScanStatus.normalizing w refl st))
        (Ends-continue scan.id (persisting n).0 _ v
          (Status-Live scan.id ScanStatus.normalizing v.db refl sv)
          λ u done.
            rw
              (session-ok scan.id (advance_scan scan.id ScanStatus.completed) tt v
                (moved scan.id ScanStatus.completed v)
                (advance_lem scan.id ScanStatus.normalizing ScanStatus.completed v refl sv))
              (notify-Ends (moved scan.id ScanStatus.completed v)
                (moved-Status scan.id ScanStatus.normalizing ScanStatus.completed v sv)))

  run_planned-Ends :
      (planned : ScanPlan) (path : Option String) (w : World)
      → Status scan.id ScanStatus.planning w.db
      → Ends scan.id (run_planned p scan planned path w)
  unfolding run_planned is_terminal_scan
  run_planned-Ends planned path w st =
      let (ids, v, started, sv) = start_ok scan.id planned.jobs w st in
      let u = (run_jobs p scan path ids v).1 in
      let same = (run_jobs-kept v.db.scans p scan path ids).at v refl in
      let su = Status-scans scan.id ScanStatus.running v.db u.db same sv in
      rw started (
        Ends-continue scan.id (run_jobs p scan path ids v).0 _ u
          (Status-Live scan.id ScanStatus.running u.db refl su) λ fs done. conclude-Ends fs u su)

  pub run_queued-Ends :
      (w : World) → Status scan.id ScanStatus.planning w.db → Ends scan.id (run_queued p scan w)
  unfolding run_queued is_terminal_scan
  run_queued-Ends w st =
      let live = Status-Live scan.id ScanStatus.planning w.db refl st in
      Ends-continue scan.id (plan_scan p scan) _ w live λ planned e.
        Ends-continue scan.id (prepare_scan p scan) _ w live
          λ path e'. run_planned-Ends planned path w st
