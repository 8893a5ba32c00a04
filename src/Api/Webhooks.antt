-- ===== src/Api/Webhooks.antt =====
-- api/services/webhooks.py: signed notifications on completion, and scans triggered by a push.
pub mod Laws
pub mod Manage
use Prim.Native.Char.{code}
use omniscan.Prelude.{
  ℕ, zero, suc, ◌+◌, String, ◌<>◌, ◌==◌, Bool, true, false, not, ◌&&◌, ◌||◌, Option, none, some,
}
use omniscan.Prelude.{List, [], ◌∷◌, ◌++◌, contains, is_nil, ltb, if◌then◌else◌}
use omniscan.Prelude.Text.{truthy}
use omniscan.Prelude.Sort.{sort}
use omniscan.Prelude.Table.{find_by}
use omniscan.Prelude.Try.{Try, ok, raise, webhook_error, other_error}
use omniscan.Python.Url.{span_to, drop_char}
use omniscan.Prelude.Text.{same_char}
use omniscan.Core.Enums.{ScanStatus, sast, class_value, status_value}
use omniscan.Core.Models.{Db, Request, Scope, Source, TargetSpec, Project, Scan, Target, Webhook}
use omniscan.Core.World.{
  World, Exec, Post, ◌>>=◌, ◌>>◌, pure, throw, lift, gets, modify, fail_if, new_id, clock,
}

-- The libraries behind the service: the HMAC-SHA256 digest in hex, `json.dumps` of a flat object,
-- whether a post goes through, and `token_urlsafe`, which reads the world's random texts.
pub record Courier : Type 0 where
  pub hmac_hex : String → String → String
  pub dumps : List (String × String) → String
  pub post_ok : Post → Bool

unfoldable pub sign : Courier → String → String → String
sign courier secret body = "sha256=" <> courier.hmac_hex secret body

is_ascii : String → Bool
is_ascii String.[] = true
is_ascii (String.◌∷◌ c s) = ltb (code c) 128 && is_ascii s

-- `hmac.compare_digest` raises a TypeError for a text that is not ASCII. The digest is hexadecimal, so
-- a signature that is equal to it is ASCII.
unfoldable pub verify : Courier → String → String → Option String → Try Bool
unfolding sign is_ascii
verify courier secret body none = ok false
verify courier secret body (some signature) =
    if signature == ""
    then ok false
    else if sign courier secret body == signature
    then ok true
    else if is_ascii signature
    then ok false
    else raise (other_error "comparing strings with non-ASCII characters is not supported")

-- `order_by(Webhook.created_at.desc())`
unfoldable pub list_webhooks : Db → List Webhook
list_webhooks db = sort (λ a b. ltb b.created_at a.created_at) db.webhooks

-- `hook.project_id is not None and hook.project_id != project_id`
unfoldable pub wrong_project : Option String → Option String → Bool
wrong_project none p = false
wrong_project (some own) none = true
wrong_project (some own) (some p) = not (own == p)

-- The `continue`s of the loop of `deliver`; the url is what it posts to.
unfoldable pub matches : String → Option String → Webhook → Option String
unfolding wrong_project
matches event project_id hook =
    if not (hook.direction == "outbound") || not hook.active || not (truthy hook.target_url)
    then none
    else if not (contains hook.events event)
    then none
    else if wrong_project hook.project_id project_id
    then none
    else hook.target_url

abbrev pub post_for : Courier → String → String → Webhook → String → Post
post_for courier event body hook url = record {
  url = url;
  event = event;
  signature = sign courier hook.signing_secret body;
  body = body;
}

-- The end of the loop's body, on the address that `matches` gave.
unfoldable pub attempt :
    Courier → String → String → Webhook → Option String → List Post × ℕ → List Post × ℕ
attempt courier event body hook none rest = rest
attempt courier event body hook (some url) (posts, delivered) =
    let post = post_for courier event body hook url in
    (post ∷ posts, if courier.post_ok post then suc delivered else delivered)

-- The loop of `deliver`, with the posts attempted and the number delivered.
unfoldable pub deliver_to : Courier → String → Option String → String → List Webhook → List Post × ℕ
unfolding matches attempt
deliver_to courier event project_id body [] = ([], 0)
deliver_to courier event project_id body (hook ∷ hooks) =
    attempt courier event body hook (matches event project_id hook)
      (deliver_to courier event project_id body hooks)

unfoldable pub deliver : Courier → String → Option String → List (String × String) → Exec ℕ
unfolding deliver_to list_webhooks
deliver courier event project_id payload w =
    let (posts, delivered) =
      deliver_to courier event project_id (courier.dumps payload) (list_webhooks w.db) in
    (ok delivered, record w { outbox = w.outbox ++ posts })

unfoldable pub notify_scan_completed : Courier → Scan → Exec ℕ
unfolding deliver
notify_scan_completed courier scan = deliver courier "scan.completed" (some scan.project_id) (
    ("event", "scan.completed")
    ∷ ("scan_id", scan.id)
    ∷ ("project_id", scan.project_id)
    ∷ ("scan_class", class_value scan.scan_class)
    ∷ ("status", status_value scan.status)
    ∷ [])
