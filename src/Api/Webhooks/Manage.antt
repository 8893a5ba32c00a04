-- ===== src/Api/Webhooks/Manage.antt =====
-- api/services/webhooks.py: making and deleting webhooks, and the scan that a push triggers.
use omniscan.Prelude.{String, ◌<>◌, ◌==◌, Bool, true, false, not, ◌&&◌, ◌||◌, Option, none, some}
use omniscan.Prelude.{List, [], ◌∷◌, ◌++◌, select, is_nil, if◌then◌else◌}
use omniscan.Prelude.Text.{truthy}
use omniscan.Prelude.Table.{find_by}
use omniscan.Prelude.Try.{Try, ok, webhook_error}
use omniscan.Core.Enums.{sast, ScanStatus}
use omniscan.Core.Models.{Db, Project, Request, Scan, Target, Webhook}
use omniscan.Core.World.{Exec, ◌>>=◌, ◌>>◌, pure, throw, lift, gets, modify, fail_if, new_id, clock}
use omniscan.Python.Url.{after_last}

abbrev pub hook_key : Webhook → String
hook_key h = h.id

abbrev pub unknown_project : Option String → Db → Bool
unknown_project none db = false
unknown_project (some p) db =
    if p == ""
    then false
    else elim (find_by (λ (x : Project). x.id) p db.projects) [ none ↦ true | some x ↦ false ]

project_text : Option String → String
project_text none = "None"
project_text (some p) = p

-- `secrets.token_urlsafe(32)` draws the text `token`, which is a parameter.
unfoldable pub create :
    String → String → Option String → Option String → List String → Exec (Webhook × String)
unfolding new_id project_text
create token direction project_id target_url events = do
  fail_if (not (direction == "outbound" || direction == "inbound"))
      (webhook_error "direction must be 'outbound' or 'inbound'")
  fail_if (direction == "outbound" && not (truthy target_url))
      (webhook_error "outbound webhooks require target_url")
  unknown ← gets (unknown_project project_id)
  fail_if unknown (webhook_error ("unknown project: " <> project_text project_id))
  id ← new_id "wh"
  now ← clock
  let hook : Webhook = record {
    id = id;
    project_id = project_id;
    direction = direction;
    target_url = target_url;
    signing_secret = "whsec_" <> token;
    events = if is_nil events then "scan.completed" ∷ [] else events;
    active = true;
    created_at = now;
  }
  modify (λ db. record db { webhooks = db.webhooks ++ hook ∷ [] })
  pure (hook, "whsec_" <> token)

-- `session.delete` of the row with the key.
remove_hook : String → List Webhook → List Webhook
remove_hook id hooks = select (λ h. not (h.id == id)) hooks

unfoldable pub delete : String → Exec Bool
unfolding remove_hook
delete webhook_id w = elim (find_by hook_key webhook_id w.db.webhooks) [
  | none ↦ (ok false, w)
  | some hook ↦
      (ok true, record w { db = record w.db { webhooks = remove_hook webhook_id w.db.webhooks } })
]

-- The first git target of the project.
unfoldable pub git_target : String → List Target → Option Target
git_target project_id [] = none
git_target project_id (t ∷ targets) =
    if t.project_id == project_id && t.kind == "git" then some t else git_target project_id targets

-- `str(payload.get("ref", "")).split("/")[-1] or None`, on the text of the reference.
unfoldable pub ref_of : String → Option String
unfolding after_last
ref_of payload_ref = let ref = after_last "/" payload_ref in if ref == "" then none else some ref

abbrev pub inbound_request : Target → String → Request
inbound_request target payload_ref = record {
  source = record {
    type = some "git";
    url = some target.identifier;
    ref = ref_of payload_ref;
    path = none;
    image = none;
  };
  target = record { base_url = none };
  tools = none;
  options = [];
  auth_ref = none;
  scope = some (record {
    allow = target.scope_allow;
    deny = target.scope_deny;
    ownership_verified = target.ownership_verified;
  });
  rvd = none;
  iast_session = none;
}

unfoldable pub add_inbound : String → Request → Exec Scan
unfolding new_id
add_inbound project_id request = do
  id ← new_id "scan"
  correlation_id ← new_id "corr"
  now ← clock
  let scan : Scan = record {
    id = id;
    project_id = project_id;
    scan_class = sast;
    status = ScanStatus.queued;
    request = request;
    idempotency_key = none;
    correlation_id = correlation_id;
    error = none;
    created_at = now;
  }
  modify (λ db. record db { scans = db.scans ++ scan ∷ [] })
  pure scan

-- The reference is read of the payload only here, and reading it raises where the payload is no dict.
unfoldable pub scan_target : String → Option Target → Try String → Exec Scan
unfolding add_inbound
scan_target project_id none payload_ref =
    throw (webhook_error "project has no registered git target to scan")
scan_target project_id (some target) payload_ref = do
  ref ← lift payload_ref
  add_inbound project_id (inbound_request target ref)

unfoldable pub trigger_project : Option String → Try String → Exec Scan
unfolding scan_target git_target
trigger_project none payload_ref = throw (webhook_error "not an inbound webhook bound to a project")
trigger_project (some project_id) payload_ref = do
  target ← gets (λ db. git_target project_id db.targets)
  scan_target project_id target payload_ref

unfoldable pub trigger_inbound : Webhook → Try String → Exec Scan
unfolding trigger_project
trigger_inbound hook payload_ref =
    if hook.direction == "inbound"
    then trigger_project hook.project_id payload_ref
    else throw (webhook_error "not an inbound webhook bound to a project")
