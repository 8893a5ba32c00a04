-- ===== src/Api/Errors.antt =====
-- api/errors.py: the problem responses that exceptions become.
use omniscan.Prelude.{ℕ, String, Option, none, some}
use omniscan.Prelude.Try.{Exn}
use omniscan.Python.Json.{Json, str}
use omniscan.Core.Redact.{redact}

-- `content`, whose `status` is also that of the response.
pub record Response : Type 0 where
  pub type : String
  pub title : String
  pub detail : String
  pub status : ℕ

-- `str(value)` of what `redact` gives for a text.
text_of : Json → String
text_of (str s) = s
text_of _ = ""

-- `_response`
unfoldable pub response :
    (String → String → String → String) → ℕ → String → String → String → Response
unfolding text_of redact
response sub status title detail type = record {
  type = type;
  title = title;
  detail = text_of (redact sub (str detail));
  status = status;
}

-- The handlers that `register_exception_handlers` registers; any other exception has none.
unfoldable pub handle : (String → String → String → String) → Exn → Option Response
unfolding response
handle sub (Exn.problem status title detail type) = some (response sub status title detail type)
handle sub (Exn.auth_error m) = some (response sub 401 "Unauthorized" m "urn:omniscan:auth")
handle sub (Exn.forbidden m) = some (response sub 403 "Forbidden" m "urn:omniscan:rbac")
handle sub (Exn.scope_violation m) =
    some (response sub 403 "Scope violation" m "urn:omniscan:scope")
handle sub (Exn.value_error m) =
    some (response sub 400 "Invalid request" m "urn:omniscan:validation")
handle sub _ = none

abbrev pub not_found : String → Exn
not_found detail = Exn.problem 404 "Not found" detail "about:blank"
