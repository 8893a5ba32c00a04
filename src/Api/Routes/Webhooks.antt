-- ===== src/Api/Routes/Webhooks.antt =====
-- api/routes/webhooks.py: the inbound trigger. The scan it returns is the one that is enqueued.
pub mod Signed
use omniscan.Prelude.{String, ◌==◌, Bool, true, false, not, Option, none, some, if◌then◌else◌}
use omniscan.Prelude.Table.{find_by}
use omniscan.Prelude.Try.{Exn, Try, ok, raise}
use omniscan.Prelude.Try
use omniscan.Python.Json.{Json, JsonDict, str, get_or, as_dict}
use omniscan.Core.Models.{Scan, Webhook}
use omniscan.Core.World.{World, Exec, ◌>>=◌, ◌>>◌, pure, throw, lift, gets}
use omniscan.Normalize.Fingerprint.{format}
use omniscan.Adapters.Tools.{Libraries}
use omniscan.Api.Errors.{not_found}
use omniscan.Api.Webhooks.{Courier, verify}
use omniscan.Api.Webhooks.Manage.{trigger_inbound}

abbrev pub webhook_key : Webhook → String
webhook_key hook = hook.id

-- `hook is None or hook.direction != "inbound"`
unfoldable pub inbound_hook : Option Webhook → Try Webhook
inbound_hook none = raise (not_found "unknown inbound webhook")
inbound_hook (some hook) =
    if hook.direction == "inbound" then ok hook else raise (not_found "unknown inbound webhook")

-- `if not webhooks.verify(...): raise Problem(401, ...)`
accept : Bool → Try (Unit {0})
accept true = ok tt
accept false =
    raise (Exn.problem 401 "Unauthorized" "invalid webhook signature" "urn:omniscan:webhook")

unfoldable pub check_signature : Courier → Webhook → String → Option String → Try (Unit {0})
unfolding verify accept
check_signature courier hook raw signature =
    Try.◌>>=◌ (verify courier hook.signing_secret raw signature) accept

-- `str(payload.get("ref", ""))`
ref_in : Libraries → Try JsonDict → Try String
unfolding get_or format
ref_in lib (raise e) = raise e
ref_in lib (ok payload) = ok (format lib.runtime (get_or "ref" (str "") payload))

unfoldable pub payload_ref : Libraries → Json → Try String
unfolding ref_in as_dict
payload_ref lib payload = ref_in lib (as_dict payload)

-- `json.loads(raw or b"{}")`
unfoldable pub pushed : Libraries → String → Try Json
pushed lib raw = lib.loads (if raw == "" then "{}" else raw)

-- `except WebhookError as exc: raise Problem(400, ...) from exc`
problem_of : Exn → Exn
problem_of (Exn.webhook_error m) = Exn.problem 400 "Invalid request" m "urn:omniscan:webhook"
problem_of e = e

unfoldable pub as_problem : Try Scan → Try Scan
unfolding problem_of
as_problem (raise e) = raise (problem_of e)
as_problem (ok scan) = ok scan

unfoldable pub trigger : Webhook → Try String → Exec Scan
unfolding as_problem
trigger hook ref w = let (r, v) = trigger_inbound hook ref w in (as_problem r, v)

unfoldable pub inbound : Courier → Libraries → String → String → Option String → Exec Scan
unfolding inbound_hook check_signature pushed payload_ref trigger
inbound courier lib webhook_id raw signature = do
  found ← gets (λ db. find_by webhook_key webhook_id db.webhooks)
  hook ← lift (inbound_hook found)
  lift (check_signature courier hook raw signature)
  payload ← lift (pushed lib raw)
  trigger hook (payload_ref lib payload)
