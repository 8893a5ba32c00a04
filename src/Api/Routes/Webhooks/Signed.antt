-- ===== src/Api/Routes/Webhooks/Signed.antt =====
-- Who can trigger a scan.
use mathlib.Core.Path.{subst}
use omniscan.Prelude.{
  ap, String, ◌==◌, eq_iff, ◌≡◌, Option, none, some, arith, Bool-cases, inl, inr,
}
use omniscan.Prelude.Table.{find_by}
use omniscan.Prelude.Try.{Try, ok, raise}
use omniscan.Core.Enums.{sast}
use omniscan.Core.Models.{Scan, Target, Webhook}
use omniscan.Core.World.{World, continue-ok}
use omniscan.Adapters.Tools.{Libraries}
use omniscan.Api.Webhooks.{Courier, sign, verify}
use omniscan.Api.Webhooks.Manage.{
  trigger_inbound, trigger_project, scan_target, git_target, add_inbound,
}
use omniscan.Api.Routes.Webhooks.{
  webhook_key, inbound_hook, check_signature, pushed, payload_ref, as_problem, trigger, inbound,
}

-- The body of the request carries the signature that the secret of the named inbound webhook makes of
-- it, and the scan is a static one of the webhook's project.
pub record Signed (courier : Courier) (webhook_id raw : String) (signature : Option String)
    (w : World) (scan : Scan) : Type 0 where
  pub hook : Webhook
  pub found : find_by webhook_key webhook_id w.db.webhooks ≡ some hook
  pub is_inbound : hook.direction ≡ "inbound"
  pub carried : signature ≡ some (sign courier hook.signing_secret raw)
  pub of_project : hook.project_id ≡ some scan.project_id
  pub is_static : scan.scan_class ≡ sast

inbound_hook-ok :
    (o : Option Webhook) (hook : Webhook)
    → inbound_hook o ≡ ok hook
    → (o ≡ some hook) × (hook.direction ≡ "inbound")
unfolding inbound_hook
inbound_hook-ok none hook h = absurd (cc h)
inbound_hook-ok (some other) hook h = elim (Bool-cases (other.direction == "inbound")) [
  | inl e ↦
      let same : other ≡ hook = ground (arith, e, h) in
      (
        ap some same,
        subst (λ w. w.direction ≡ "inbound") same ((eq_iff other.direction "inbound").0 e),
      )
  | inr e ↦ absurd (ground (arith, e, h))
]

check_signature-ok :
    (courier : Courier) (hook : Webhook) (raw : String) (signature : Option String) (u : Unit)
    → check_signature courier hook raw signature ≡ ok u
    → signature ≡ some (sign courier hook.signing_secret raw)
unfolding check_signature verify
check_signature-ok courier hook raw none u h = absurd (cc h)
check_signature-ok courier hook raw (some s) u h =
    ground (arith, h, eq_iff (sign courier hook.signing_secret raw) s)

as_problem-ok : (r : Try Scan) (scan : Scan) → as_problem r ≡ ok scan → r ≡ ok scan
unfolding as_problem
as_problem-ok (ok other) scan h = h
as_problem-ok (raise e) scan h = absurd (cc h)

scan_target-ok :
    (project_id : String) (target : Option Target) (ref : Try String) (w : World) (scan : Scan)
    → (scan_target project_id target ref w).0 ≡ ok scan
    → (some project_id ≡ some scan.project_id) × (scan.scan_class ≡ sast)
unfolding scan_target add_inbound
scan_target-ok project_id none ref w scan h = absurd (cc h)
scan_target-ok project_id (some target) ref w scan h =
    let (text, _, h1) = continue-ok ref _ w scan h in (cc h1, cc h1)

trigger_project-ok :
    (project : Option String) (ref : Try String) (w : World) (scan : Scan)
    → (trigger_project project ref w).0 ≡ ok scan
    → (project ≡ some scan.project_id) × (scan.scan_class ≡ sast)
unfolding trigger_project
trigger_project-ok none ref w scan h = absurd (cc h)
trigger_project-ok (some p) ref w scan h = scan_target-ok p (git_target p w.db.targets) ref w scan h

trigger-ok :
    (hook : Webhook) (ref : Try String) (w : World) (scan : Scan)
    → (trigger hook ref w).0 ≡ ok scan
    → (hook.project_id ≡ some scan.project_id) × (scan.scan_class ≡ sast)
unfolding trigger trigger_inbound
trigger-ok hook ref w scan h =
    let made = as_problem-ok (trigger_inbound hook ref w).0 scan h in
    elim (Bool-cases (hook.direction == "inbound")) [
      | inl e ↦ trigger_project-ok hook.project_id ref w scan (ground (arith, e, made))
      | inr e ↦ absurd (ground (arith, e, made))
    ]

-- A scan that the inbound route starts comes from a delivery signed with the webhook's own secret.
pub inbound-Signed :
    (courier : Courier) (lib : Libraries) (webhook_id raw : String) (signature : Option String)
    (w : World) (scan : Scan)
    → (inbound courier lib webhook_id raw signature w).0 ≡ ok scan
    → Signed courier webhook_id raw signature w scan
unfolding inbound
inbound-Signed courier lib webhook_id raw signature w scan h =
    let (hook, found, h1) =
      continue-ok (inbound_hook (find_by webhook_key webhook_id w.db.webhooks)) _ w scan h in
    let (u, checked, h2) = continue-ok (check_signature courier hook raw signature) _ w scan h1 in
    let (payload, _, h3) = continue-ok (pushed lib raw) _ w scan h2 in
    let (same, direction) = inbound_hook-ok _ hook found in
    let (project, class) = trigger-ok hook (payload_ref lib payload) w scan h3 in
    record {
      hook = hook;
      found = same;
      is_inbound = direction;
      carried = check_signature-ok courier hook raw signature u checked;
      of_project = project;
      is_static = class;
    }
