-- ===== src/Api/Scans.antt =====
-- api/services/scans.py: a scan is admitted by the scope guard before it is stored.
pub mod Created
pub mod Planned
use omniscan.Prelude.{ℕ, String, ◌<>◌, ◌==◌, Bool, true, false, Option, none, some}
use omniscan.Prelude.{List, [], ◌∷◌, ◌++◌, select, ltb, if◌then◌else◌}
use omniscan.Prelude.Sort.{sort}
use omniscan.Prelude.Table.{find_by}
use omniscan.Prelude.Try.{Try, ok, raise, value_error}
use omniscan.Prelude.Try
use omniscan.Python.Json.{JsonDict}
use omniscan.Core.Enums.{ScanClass, rvd, same_class, ScanStatus}
use omniscan.Core.Models.{Db, Project, Request, Scope, Source, TargetSpec, Scan, ScanJob}
use omniscan.Core.ScopeGuard.{enforce}
use omniscan.Core.World.{World, Exec, ◌>>=◌, ◌>>◌, pure, throw, lift, gets, modify, new_id, clock}
use omniscan.Api.Projects.{ScopeSpec, get_project, resolve_scope}
use omniscan.Engine.Planner.{requested_hosts}

-- `ScanCreate`; `rvd` is the dict that `RVDSpec.model_dump` gives, and `auth_ref` is `auth.ref`.
pub record ScanCreate : Type 0 where
  pub scan_class : ScanClass
  pub project_id : String
  pub source : Option Source
  pub target : Option TargetSpec
  pub scope : Option ScopeSpec
  pub auth_ref : Option String
  pub tools : Option (List String)
  pub options : JsonDict
  pub rvd : Option JsonDict
  pub idempotency_key : Option String

-- A row whose `idempotency_key` equals the given one; the column may be null.
same_key : String → Scan → Bool
same_key key s = elim s.idempotency_key [ none ↦ false | some k ↦ k == key ]

first_scan : String → List Scan → Option Scan
first_scan key [] = none
first_scan key (s ∷ scans) = if same_key key s then some s else first_scan key scans

-- The scan that an earlier request with the same key made.
unfoldable pub replayed : Option String → List Scan → Option Scan
unfolding first_scan same_key
replayed none scans = none
replayed (some key) scans = if key == "" then none else first_scan key scans

abbrev pub source_of : ScanCreate → Source
source_of body = elim body.source [
  | none ↦ record { type = none; url = none; ref = none; path = none; image = none }
  | some s ↦ s
]

abbrev pub target_of : ScanCreate → TargetSpec
target_of body = elim body.target [ none ↦ record { base_url = none } | some t ↦ t ]

-- `_requested_hosts`, of which the planner has a copy.
abbrev pub body_hosts : ScanCreate → Try (List String)
body_hosts body = requested_hosts (source_of body) (target_of body)

-- The scope guard's gate.
unfoldable pub admit : ScanCreate → Scope → Try (Unit {0})
admit body scope =
    Try.◌>>=◌ (body_hosts body)
      (λ hosts. enforce body.scan_class scope.ownership_verified scope.allow scope.deny hosts)

abbrev non_empty_ref : Option String → Option String
non_empty_ref none = none
non_empty_ref (some r) = if r == "" then none else some r

abbrev pub stored_request : ScanCreate → Scope → Request
stored_request body scope = record {
  source = source_of body;
  target = target_of body;
  tools = body.tools;
  options = body.options;
  auth_ref = non_empty_ref body.auth_ref;
  scope = some scope;
  rvd = if same_class body.scan_class rvd then body.rvd else none;
  iast_session = none;
}

unfoldable pub add_scan : ScanCreate → Request → Exec Scan
unfolding new_id
add_scan body request = do
  id ← new_id "scan"
  correlation_id ← new_id "corr"
  now ← clock
  let scan : Scan = record {
    id = id;
    project_id = body.project_id;
    scan_class = body.scan_class;
    status = ScanStatus.queued;
    request = request;
    idempotency_key = body.idempotency_key;
    correlation_id = correlation_id;
    error = none;
    created_at = now;
  }
  modify (λ db. record db { scans = db.scans ++ scan ∷ [] })
  pure scan

known : Option Project → String → Try (Unit {0})
known none project_id = raise (value_error ("unknown project: " <> project_id))
known (some p) project_id = ok tt

-- What follows the look-up of the idempotency key.
unfoldable pub create_new : ScanCreate → Exec Scan
unfolding admit add_scan known
create_new body = do
  project ← gets (λ db. get_project db body.project_id)
  lift (known project body.project_id)
  scope ← gets (λ db. resolve_scope db body.project_id body.scope)
  lift (admit body scope)
  add_scan body (stored_request body scope)

unfoldable pub unless_existing : ScanCreate → Option Scan → Exec Scan
unless_existing body (some existing) = pure existing
unless_existing body none = create_new body

unfoldable pub create_scan : ScanCreate → Exec Scan
unfolding unless_existing replayed
create_scan body w = unless_existing body (replayed body.idempotency_key w.db.scans) w

unfoldable pub get_scan : Db → String → Option Scan
get_scan db scan_id = find_by (λ (s : Scan). s.id) scan_id db.scans

abbrev in_project : Option String → Scan → Bool
in_project none s = true
in_project (some p) s = if p == "" then true else s.project_id == p

unfoldable pub list_scans : Db → Option String → List Scan
list_scans db project_id =
    select (in_project project_id) (sort (λ a b. ltb b.created_at a.created_at) db.scans)

unfoldable pub get_jobs : Db → String → List ScanJob
get_jobs db scan_id =
    sort (λ a b. ltb a.created_at b.created_at) (select (λ j. j.scan_id == scan_id) db.jobs)
