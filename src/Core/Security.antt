-- ===== src/Core/Security.antt =====
-- core/security.py and the principal of api/deps.py: tokens, roles, and the gate on proofs of
-- concept. The token store is a dict that the operations take and return.
use omniscan.Prelude.{String, ◌==◌, ◌≡◌, Bool, true, false, Option, none, some}
use omniscan.Prelude.{arith, ltb, if◌then◌else◌}
use omniscan.Prelude.Text.{lower, strip, begins_with, drop_text}
use omniscan.Prelude.Dict.{Dict, lookup, insert, lookup-insert}
use omniscan.Prelude.Try.{Try, ok, raise, auth_error, forbidden}
use omniscan.Core.Enums.{Role, admin, role_rank}

pub record Principal : Type 0 where
  pub user_id : String
  pub email : String
  pub role : Role

-- `bootstrap`, with the token of the settings.
unfoldable pub bootstrap : String → Dict Principal → Dict Principal
bootstrap token tokens =
    insert token
      (record { user_id = "user_bootstrap"; email = "admin@omniscan.local"; role = admin }) tokens

unfoldable pub issue_token : String → Principal → Dict Principal → Dict Principal
issue_token token principal tokens = insert token principal tokens

authenticate_known : Option Principal → Try Principal
authenticate_known none = raise (auth_error "invalid token")
authenticate_known (some principal) = ok principal

unfoldable pub authenticate : Dict Principal → Option String → Try Principal
unfolding authenticate_known
authenticate tokens none = raise (auth_error "missing bearer token")
authenticate tokens (some token) =
    if token == ""
    then raise (auth_error "missing bearer token")
    else authenticate_known (lookup token tokens)

-- `current_principal` of api/deps.py, from the `Authorization` header.
unfoldable pub bearer_token : Option String → Option String
bearer_token none = none
bearer_token (some header) =
    if begins_with (lower header) "bearer " then some (strip (drop_text 7 header)) else none

unfoldable pub current_principal : Dict Principal → Option String → Try Principal
unfolding bearer_token authenticate
current_principal tokens authorization = authenticate tokens (bearer_token authorization)

unfoldable pub require_role : Principal → Role → Try (Unit {0})
require_role principal minimum =
    if ltb (role_rank principal.role) (role_rank minimum)
    then raise (forbidden "role lacks required role")
    else ok tt

is_admin : Role → Bool
is_admin admin = true
is_admin _ = false

unfoldable pub can_view_poc : Principal → Bool
unfolding is_admin
can_view_poc principal = is_admin principal.role

-- A token that was issued authenticates its principal, and issuing it changes what no other
-- token authenticates.
pub authenticate-issue_token :
    (token other : String) (principal : Principal) (tokens : Dict Principal)
    → (other == "") ≡ false
    → authenticate (issue_token token principal tokens) (some other)
      ≡ (if token == other then ok principal else authenticate tokens (some other))
unfolding authenticate issue_token
authenticate-issue_token token other principal tokens h =
    ground (arith, lookup-insert token other principal tokens)
