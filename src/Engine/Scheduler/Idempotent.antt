-- ===== src/Engine/Scheduler/Idempotent.antt =====
-- `execute_scan` as a whole: it ends every queued scan, and does nothing to any other.
use omniscan.Prelude.{String, ◌≡◌, refl, sym, false, none, some}
use omniscan.Prelude.{arith, ◌⊎◌, inl, inr, Option-cases, Bool-cases}
use mathlib.Core.Path.{subst}
use omniscan.Prelude.Table.{find_by, find_by-key, find_by-update_by_self}
use omniscan.Prelude.Try.{Try, ok, raise, Exn, message}
use omniscan.Core.Enums.{ScanStatus}
use omniscan.Core.Models.{Scan}
use omniscan.Core.World.{World, session_scope}
use omniscan.Engine.Lifecycle.{assert_scan_transition, same_status}
use omniscan.Engine.Scheduler.Platform.{Platform, scan_key}
use omniscan.Engine.Scheduler.Execute.{begin_scan, run_queued, fail_scan, guarded, execute_scan}
use omniscan.Engine.Scheduler.Terminal.{Status, Live, Ends, moved, moved-Status, run_queued-Ends}

-- The execution has ended the scan, and has not raised.
pub record Ended (scan_id : String) (r : Try (Unit {0}) × World) : Type 0 where
  pub returned : r.0 ≡ ok tt
  pub status : Status scan_id ScanStatus.completed r.1.db ⊎ Status scan_id ScanStatus.failed r.1.db

module _ (p : Platform) where
  fail_found-Ended :
      (scan_id : String) (e : Exn) (w : World)
      → Live scan_id w.db
      → Ended scan_id (fail_scan p scan_id e w)
  unfolding fail_scan session_scope
  fail_found-Ended scan_id e w (s, found, live) =
      let mark = λ (x : Scan). record x {
        status = ScanStatus.failed;
        error = some (p.redact (message e));
      } in
      record {
        returned = rw (found, live);
        status = inr (
            rw (found, live)
              (
                mark s,
                find_by-update_by_self scan_key scan_id mark w.db.scans (λ x. refl) s found,
                refl,
              ));
      }

  guarded-Ended :
      (scan_id : String) (r : Try (Unit {0})) (w : World)
      → Ends scan_id (r, w)
      → Ended scan_id (guarded p scan_id r w)
  unfolding guarded
  guarded-Ended scan_id (ok u) w st = record { returned = refl; status = inl st }
  guarded-Ended scan_id (raise e) w live = fail_found-Ended scan_id e w live

  begin_lem :
      (s : Scan) (w : World)
      → find_by scan_key s.id w.db.scans ≡ some s
      → s.status ≡ ScanStatus.queued
      → session_scope (begin_scan s.id) w ≡ (ok (some s), moved s.id ScanStatus.planning w)
  unfolding begin_scan session_scope assert_scan_transition
  begin_lem s w found at = rw (found, at)

  execute_at :
      (s : Scan) (w : World)
      → find_by scan_key s.id w.db.scans ≡ some s
      → s.status ≡ ScanStatus.queued
      → Ended s.id (execute_scan p s.id w)
  unfolding execute_scan
  execute_at s w found at =
      let v = moved s.id ScanStatus.planning w in
      let sv = moved-Status s.id ScanStatus.queued ScanStatus.planning w (s, found, at) in
      rw (begin_lem s w found at)
        (guarded-Ended s.id (run_queued p s v).0 (run_queued p s v).1 (run_queued-Ends p s v sv))

  -- The execution of a queued scan returns, whatever the planner, the workspace, the adapters, the
  -- containers and the webhooks do, and leaves the scan either completed or failed.
  pub execute_scan_ends :
      (scan_id : String) (w : World)
      → Status scan_id ScanStatus.queued w.db
      → Ended scan_id (execute_scan p scan_id w)
  execute_scan_ends scan_id w (s, found, at) =
      let key = find_by-key scan_key scan_id s w.db.scans found in
      subst (λ i. Ended i (execute_scan p i w)) key
        (execute_at s w (subst (λ i. find_by scan_key i w.db.scans ≡ some s) (sym key) found) at)

  skipped :
      (scan_id : String) (w : World)
      → session_scope (begin_scan scan_id) w ≡ (ok none, w)
      → execute_scan p scan_id w ≡ (ok tt, w)
  unfolding execute_scan
  skipped scan_id w e = rw e

  missing_lem :
      (scan_id : String) (w : World)
      → find_by scan_key scan_id w.db.scans ≡ none
      → session_scope (begin_scan scan_id) w ≡ (ok none, w)
  unfolding begin_scan session_scope
  missing_lem scan_id w e = rw e

  started_lem :
      (scan_id : String) (s : Scan) (w : World)
      → find_by scan_key scan_id w.db.scans ≡ some s
      → same_status s.status ScanStatus.queued ≡ false
      → session_scope (begin_scan scan_id) w ≡ (ok none, w)
  unfolding begin_scan session_scope
  started_lem scan_id s w found e = rw (found, e)

  settled :
      (scan_id : String) (w : World)
      → Status scan_id ScanStatus.completed w.db ⊎ Status scan_id ScanStatus.failed w.db
      → execute_scan p scan_id w ≡ (ok tt, w)
  settled scan_id w (inl (s, found, at)) = skipped scan_id w (started_lem scan_id s w found (rw at))
  settled scan_id w (inr (s, found, at)) = skipped scan_id w (started_lem scan_id s w found (rw at))

  -- A second delivery of a scan changes nothing at all, whatever became of the first.
  pub execute_scan_idem :
      (scan_id : String) (w : World)
      → let v = (execute_scan p scan_id w).1 in execute_scan p scan_id v ≡ (ok tt, v)
  execute_scan_idem scan_id w = elim (Option-cases (find_by scan_key scan_id w.db.scans)) [
    | inl e ↦ let still = skipped scan_id w (missing_lem scan_id w e) in rw still still
    | inr (s, found) ↦ elim (Bool-cases (same_status s.status ScanStatus.queued)) [
      | inl q ↦
          settled scan_id (execute_scan p scan_id w).1
            (execute_scan_ends scan_id w (s, found, ground arith)).status
      | inr q ↦ let still = skipped scan_id w (started_lem scan_id s w found q) in rw still still
    ]
  ]
