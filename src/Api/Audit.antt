-- ===== src/Api/Audit.antt =====
-- api/services/audit.py: the immutable record of who did what; its detail is redacted first.
use omniscan.Prelude.{String, [], ◌∷◌, ◌++◌}
use omniscan.Python.Json.{JsonDict}
use omniscan.Core.World.{Exec, ◌>>=◌, modify, new_id, clock}

-- `redact` on a dict is a parameter of the services.
abbrev pub Redactor : Type 0
Redactor = JsonDict → JsonDict

unfoldable pub record_audit :
    Redactor → String → String → String → String → JsonDict → Exec (Unit {0})
unfolding new_id
record_audit redact actor_id action resource_type resource_id detail = do
  id ← new_id "aud"
  now ← clock
  modify (λ db. record db {
    audit_log =
        db.audit_log
        ++ record {
          id = id;
          actor_id = actor_id;
          action = action;
          resource_type = resource_type;
          resource_id = resource_id;
          detail = redact detail;
          created_at = now;
        }
          ∷ [];
  })
