-- ===== src/Core/ScopeGuard.antt =====
-- core/scope_guard.py: the gate that every scan passes before any job exists.
pub mod Laws
use omniscan.Prelude.{String, ◌<>◌, Bool, true, false, not, ◌&&◌, ◌||◌, List, [], ◌∷◌, any, is_nil}
use omniscan.Prelude.{none, some, ◌==◌, if◌then◌else◌}
use omniscan.Prelude.Text.{lower}
use omniscan.Prelude.Try.{Try, ok, raise, scope_violation, ◌>>=◌}
use omniscan.Python.Fnmatch.{fnmatch}
use omniscan.Python.Url.{hostname, has_scheme_mark}
use omniscan.Core.Enums.{ScanClass, sast, dast, iast, rvd, class_value}

pub record ScopeDecision : Type 0 where
  pub allowed : Bool
  pub reason : String

-- `_host_of`; `urlparse` raises on a malformed network location.
unfoldable pub host_of : String → Try String
host_of value = do
  parsed ← hostname (if has_scheme_mark value then value else "//" <> value)
  ok (lower (elim parsed [ none ↦ value | some name ↦ (if name == "" then value else name) ]))

-- `_matches_any`
unfoldable pub matches_any : String → List String → Bool
matches_any host patterns = any (λ p. fnmatch host (lower p)) patterns

-- `dangerous_class`
unfoldable pub dangerous_class : ScanClass → Bool
dangerous_class sast = false
dangerous_class dast = true
dangerous_class iast = true
dangerous_class rvd = true

-- The loop over `requested_hosts`.
check_hosts : List String → List String → List String → Try ScopeDecision
check_hosts allow deny [] = ok (record { allowed = true; reason = "in scope" })
check_hosts allow deny (host ∷ hosts) = do
  h ← host_of host
  let rest = check_hosts allow deny hosts
  if not (is_nil deny) && matches_any h deny
      then ok (record { allowed = false; reason = "host '" <> h <> "' matches denylist" })
      else if not (is_nil allow) && not (matches_any h allow)
      then ok (record { allowed = false; reason = "host '" <> h <> "' is outside the allowlist" })
      else rest

unfoldable pub check :
    ScanClass → Bool → List String → List String → List String → Try ScopeDecision
unfolding check_hosts dangerous_class
check scan_class ownership_verified allow deny hosts =
    if dangerous_class scan_class && not ownership_verified
    then ok (record {
      allowed = false;
      reason = class_value scan_class <> ": target ownership is not verified";
    })
    else if not (is_nil hosts) && is_nil allow
    then ok (record {
      allowed = false;
      reason = class_value scan_class <> ": no scope allowlist — refusing to scan network hosts";
    })
    else check_hosts allow deny hosts

unfoldable pub enforce : ScanClass → Bool → List String → List String → List String → Try (Unit {0})
unfolding check
enforce scan_class ownership_verified allow deny hosts = do
  decision ← check scan_class ownership_verified allow deny hosts
  if decision.allowed then ok tt else raise (scope_violation decision.reason)
