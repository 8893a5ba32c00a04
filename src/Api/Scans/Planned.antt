-- ===== src/Api/Scans/Planned.antt =====
-- A scan that the service has stored is planned by the scheduler from what it keeps.
use omniscan.Prelude.{◌≡◌, ◌≢◌, refl, [], map}
use omniscan.Prelude.Try.{ok}
use omniscan.Core.Models.{Scan}
use omniscan.Core.World.{World}
use omniscan.Api.Scans.{ScanCreate, source_of, target_of}
use omniscan.Api.Projects.{resolve_scope}
use omniscan.Api.Scans.Created.{Created}
use omniscan.Engine.Planner.{planned, requested_tools}
use omniscan.Engine.Planner.Laws.{Available, plan_iff}
use omniscan.Engine.Scheduler.Platform.{Platform}
use omniscan.Engine.Scheduler.Execute.{plan_scan}

-- The scope guard of the planner never refuses a scan that the service has created: if some tool is
-- asked for and every tool asked for is an adapter of the class, the plan has one job for each.
pub Created-plan_scan :
    (p : Platform) (body : ScanCreate) (w v : World) (s : Scan)
    → Created body w s v
    → let tools = requested_tools p.registry body.scan_class body.tools in
      tools ≢ []
      → Available p.registry body.scan_class tools
      → plan_scan p s
        ≡ ok (record { scan_class = body.scan_class; jobs = map (planned body.scan_class) tools })
Created-plan_scan p body w v s c some_tool available =
    let scope = resolve_scope w.db body.project_id body.scope in
    rw (c.keeps_request, c.keeps_class)
      ((plan_iff p.registry body.scan_class body.tools (source_of body) (target_of body)
          scope.ownership_verified scope.allow scope.deny _).1
        (record {
          hosts = c.hosts;
          readable = c.readable;
          authorized = c.authorized;
          some_tool = some_tool;
          available = available;
          planned_as = refl;
        }))
