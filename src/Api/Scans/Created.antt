-- ===== src/Api/Scans/Created.antt =====
-- What `create_scan` gives, stores and refuses.
use omniscan.Prelude.{String, ◌≡◌, refl, sym, ◌∙◌, ap, none, some}
use omniscan.Prelude.{List, [], ◌∷◌, ◌++◌, Option-cases, ◌⊎◌, inl, inr, arith}
use omniscan.Prelude.Try.{ok, raise, Exn, Try-cases}
use omniscan.Core.Enums.{ScanStatus}
use omniscan.Core.Models.{Project, Request, Scope, Scan}
use omniscan.Core.ScopeGuard.Laws.{Authorized, enforce_iff}
use omniscan.Core.World.{World}
use omniscan.Api.Projects.{get_project, resolve_scope}
use omniscan.Engine.Planner.{requested_hosts}
use omniscan.Api.Scans.{
  ScanCreate, replayed, source_of, target_of, admit, stored_request, add_scan, known, create_new,
  unless_existing, create_scan,
}

-- The scan is new: its request was in scope, it is queued, it keeps the scope that admitted it,
-- and it is the one row that was added.
pub record Created (body : ScanCreate) (w : World) (s : Scan) (v : World) : Type 0 where
  pub hosts : List String
  pub readable : requested_hosts (source_of body) (target_of body) ≡ ok hosts
  pub authorized :
      let scope = resolve_scope w.db body.project_id body.scope in
      Authorized body.scan_class scope.ownership_verified scope.allow scope.deny hosts
  pub queued : s.status ≡ ScanStatus.queued
  pub keeps_class : s.scan_class ≡ body.scan_class
  pub keeps_request :
      s.request ≡ stored_request body (resolve_scope w.db body.project_id body.scope)
  pub stored : v.db.scans ≡ w.db.scans ++ s ∷ []

admit-Authorized :
    (body : ScanCreate) (scope : Scope)
    → admit body scope ≡ ok tt
    → (hosts : List String) × (requested_hosts (source_of body) (target_of body) ≡ ok hosts)
      × Authorized body.scan_class scope.ownership_verified scope.allow scope.deny hosts
unfolding admit
admit-Authorized body scope h =
    elim (Try-cases (requested_hosts (source_of body) (target_of body))) [
      | inl (hosts, e) ↦ (
        hosts,
        e,
        (enforce_iff body.scan_class scope.ownership_verified scope.allow scope.deny hosts).0
            (ground arith),
      )
      | inr (x, e) ↦ absurd (ground arith)
    ]

-- What `add_scan` stores.
record Added (body : ScanCreate) (request : Request) (w : World) (s : Scan) (v : World)
    : Type 0 where
  is_queued : s.status ≡ ScanStatus.queued
  class_kept : s.scan_class ≡ body.scan_class
  request_kept : s.request ≡ request
  row : v.db.scans ≡ w.db.scans ++ s ∷ []

add_scan-Added :
    (body : ScanCreate) (request : Request) (s : Scan) (w : World)
    → (add_scan body request w).0 ≡ ok s
    → Added body request w s (add_scan body request w).1
unfolding add_scan
add_scan-Added body request s w h = record {
  is_queued = ground arith;
  class_kept = ground arith;
  request_kept = ground arith;
  row = ap (λ x. w.db.scans ++ x ∷ []) (ground arith);
}

create_new-admitted :
    (body : ScanCreate) (p : Project) (w : World)
    → let scope = resolve_scope w.db body.project_id body.scope in
      get_project w.db body.project_id ≡ some p
      → admit body scope ≡ ok tt
      → create_new body w ≡ add_scan body (stored_request body scope) w
unfolding create_new known
create_new-admitted body p w known admitted = rw (known, admitted)

create_new-Created :
    (body : ScanCreate) (s : Scan) (w : World)
    → (create_new body w).0 ≡ ok s
    → Created body w s (create_new body w).1
unfolding create_new known
create_new-Created body s w h = elim (Option-cases (get_project w.db body.project_id)) [
  | inl e ↦ absurd (ground arith)
  | inr (p, e) ↦
      let scope = resolve_scope w.db body.project_id body.scope in
      elim (Try-cases (admit body scope)) [
        | inr (x, refused) ↦ absurd (ground arith)
        | inl (u, admitted) ↦
            let (hosts, readable, authorized) = admit-Authorized body scope admitted in
            let same = create_new-admitted body p w e admitted in
            let added =
              add_scan-Added body (stored_request body scope) s w (sym (ap (λ r. r.0) same) ∙ h) in
            record {
              hosts = hosts;
              readable = readable;
              authorized = authorized;
              queued = added.is_queued;
              keeps_class = added.class_kept;
              keeps_request = added.request_kept;
              stored = ap (λ r. r.1.db.scans) same ∙ added.row;
            }
      ]
]

create_new-refused :
    (body : ScanCreate) (e : Exn) (w : World)
    → (create_new body w).0 ≡ raise e
    → (create_new body w).1 ≡ w
unfolding create_new known add_scan
create_new-refused body e w h = elim (Option-cases (get_project w.db body.project_id)) [
  | inl absent ↦ rw absent refl
  | inr (p, found) ↦ elim (Try-cases (admit body (resolve_scope w.db body.project_id body.scope))) [
    | inr (x, refused) ↦ rw (found, refused) refl
    | inl (u, admitted) ↦ absurd (ground arith)
  ]
]

fresh_lem :
    (body : ScanCreate) (w : World)
    → replayed body.idempotency_key w.db.scans ≡ none
    → create_scan body w ≡ create_new body w
unfolding create_scan unless_existing
fresh_lem body w e = rw e refl

-- A scan that `create_scan` returns is the one that an earlier request with the same key made, and
-- then nothing is changed, or it is new: its hosts are authorized by the scope of the project, it is
-- queued, it keeps its class, its request and that scope, and it is the one row added.
pub create_scan-Created :
    (body : ScanCreate) (s : Scan) (w : World)
    → (create_scan body w).0 ≡ ok s
    → ((replayed body.idempotency_key w.db.scans ≡ some s) × ((create_scan body w).1 ≡ w))
      ⊎ Created body w s (create_scan body w).1
unfolding create_scan unless_existing
create_scan-Created body s w h = elim (Option-cases (replayed body.idempotency_key w.db.scans)) [
  | inl e ↦ inr (rw e (create_new-Created body s w (sym (ap (λ r. r.0) (fresh_lem body w e)) ∙ h)))
  | inr (old, e) ↦ inl (ground arith, rw e refl)
]

-- A request that is refused leaves no trace: nothing is stored, and no identifier is drawn.
pub create_scan_refused :
    (body : ScanCreate) (e : Exn) (w : World)
    → (create_scan body w).0 ≡ raise e
    → (create_scan body w).1 ≡ w
unfolding create_scan unless_existing
create_scan_refused body e w h = elim (Option-cases (replayed body.idempotency_key w.db.scans)) [
  | inl none_yet ↦ rw none_yet (create_new-refused body e w (ground arith))
  | inr (old, found) ↦ rw found refl
]
