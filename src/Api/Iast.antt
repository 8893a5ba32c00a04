-- ===== src/Api/Iast.antt =====
-- api/services/iast.py: sessions of runtime instrumentation, and the tokens of their agents.
pub mod Collect
pub mod Auth
use omniscan.Prelude.{ℕ, ◌+◌, String, ◌<>◌, ◌==◌, Bool, true, false, not, ◌&&◌, Option, none, some}
use omniscan.Prelude.{List, [], ◌∷◌, ◌++◌, ltb, if◌then◌else◌}
use omniscan.Prelude.Dict.{Dict, lookup, has_key}
use omniscan.Prelude.Table.{find_by, update_by}
use omniscan.Prelude.Try.{Try, ok, raise, iast_error}
use omniscan.Core.Enums.{iast, ScanStatus, IastSessionStatus}
use omniscan.Core.Models.{Db, IastSession, Project, Request, Scan}
use omniscan.Core.World.{
  World, Exec, ◌>>=◌, ◌>>◌, pure, throw, lift, gets, modify, fail_if, new_id, clock,
}
use omniscan.Engine.Lifecycle.{same_status}
use omniscan.Api.Projects.{get_project}

-- Two hours; the clock counts seconds here.
abbrev pub default_ttl : ℕ
default_ttl = 7200

-- `_SNIPPETS`: what stands before the session's identifier, and what stands behind it.
abbrev pub snippets : Dict (String × String)
snippets =
    (
      "jvm",
      (
        "java -javaagent:/opt/omniscan/iast-agent.jar -Domniscan.session=",
        " -Domniscan.collector=$OMNISCAN_COLLECTOR_URL -jar app.jar",
      ),
    )
    ∷ ("python", ("OMNISCAN_IAST_SESSION=", " python -m omniscan_iast.bootstrap your_app:app"))
    ∷ ("node", ("node -r @omniscan/iast-agent/register app.js  # OMNISCAN_IAST_SESSION=", ""))
    ∷ ("dotnet", ("CORECLR_PROFILER=omniscan OMNISCAN_IAST_SESSION=", " dotnet App.dll"))
    ∷ ("go", ("omniscan-iast run --session ", " -- ./app  # requires build-time instrumentation"))
    ∷ []

fill : Option (String × String) → String → String → Try String
fill none runtime session_id = raise (
    iast_error (
      "unsupported runtime: " <> runtime
      <> " (expected one of ['dotnet', 'go', 'jvm', 'node', 'python'])"))
fill (some (before, after)) runtime session_id = ok (before <> session_id <> after)

unfoldable pub injection_snippet : String → String → Try String
unfolding fill
injection_snippet runtime session_id = fill (lookup runtime snippets) runtime session_id

abbrev pub session_key : IastSession → String
session_key s = s.id

is_known : Option Project → Bool
is_known none = false
is_known (some p) = true

-- The scan that the findings of the session stream into.
abbrev collection_scan : String → String → String → String → ℕ → Scan
collection_scan scan_id correlation_id project_id sid now = record {
  id = scan_id;
  project_id = project_id;
  scan_class = iast;
  status = ScanStatus.running;
  request = record {
    source = record { type = none; url = none; ref = none; path = none; image = none };
    target = record { base_url = none };
    tools = none;
    options = [];
    auth_ref = none;
    scope = none;
    rvd = none;
    iast_session = some sid;
  };
  idempotency_key = none;
  correlation_id = correlation_id;
  error = none;
  created_at = now;
}

-- `hash` is the SHA-256 digest in hex, and `secret` the text that `token_urlsafe(32)` draws.
unfoldable pub create_session :
    (String → String) → String → String → String → Exec (IastSession × String × String)
unfolding is_known new_id
create_session hash secret project_id runtime = do
  project ← gets (λ db. get_project db project_id)
  fail_if (not (is_known project)) (iast_error ("unknown project: " <> project_id))
  fail_if (not (has_key runtime snippets)) (iast_error ("unsupported runtime: " <> runtime))
  sid ← new_id "sess"
  scan_id ← new_id "scan"
  correlation_id ← new_id "corr"
  now ← clock
  modify (λ db. record db {
    scans = db.scans ++ collection_scan scan_id correlation_id project_id sid now ∷ [];
  })
  let made : IastSession = record {
    id = sid;
    project_id = project_id;
    runtime = runtime;
    status = IastSessionStatus.active;
    collector_token_ref = "ref://iast/" <> sid <> "/collector-token";
    collector_token_hash = hash ("iastk_" <> secret);
    scan_id = some scan_id;
    created_at = now;
    expires_at = now + default_ttl;
    finalized_at = none;
  }
  modify (λ db. record db { sessions = db.sessions ++ made ∷ [] })
  snippet ← lift (injection_snippet runtime sid)
  pure (made, "iastk_" <> secret, snippet)

abbrev pub is_active : IastSessionStatus → Bool
is_active IastSessionStatus.active = true
is_active _ = false

abbrev pub update_session : String → (IastSession → IastSession) → Exec (Unit {0})
update_session session_id f =
    modify (λ db. record db { sessions = update_by session_key session_id f db.sessions })

-- The lazy expiry of `get_session`, on the row.
unfoldable pub reflect_expiry : String → Option IastSession → Exec (Option IastSession)
reflect_expiry session_id none = pure none
reflect_expiry session_id (some s) = do
  now ← clock
  if is_active s.status && ltb s.expires_at now
      then (do
        update_session session_id (λ x. record x { status = IastSessionStatus.expired })
        pure (some (record s { status = IastSessionStatus.expired })))
      else pure (some s)

unfoldable pub get_session : String → Exec (Option IastSession)
unfolding reflect_expiry
get_session session_id w =
    reflect_expiry session_id (find_by session_key session_id w.db.sessions) w

unfoldable pub is_live : String → Exec Bool
unfolding get_session
is_live session_id = do
  s ← get_session session_id
  pure (elim s [ none ↦ false | some x ↦ is_active x.status ])

-- The scan of a finalized session is completed if it is running.
unfoldable pub complete_scan : Option String → Exec (Unit {0})
complete_scan none = pure tt
complete_scan (some scan_id) = modify (λ db. record db {
  scans =
      update_by (λ (s : Scan). s.id) scan_id
        (λ s.
          if same_status s.status ScanStatus.running
          then record s { status = ScanStatus.completed }
          else s)
        db.scans;
})

finalized : IastSession → ℕ → IastSession
finalized s now =
    if is_active s.status
    then record s { status = IastSessionStatus.finalized; finalized_at = some now }
    else s

finalize_found : String → Option IastSession → Exec IastSession
unfolding finalized complete_scan
finalize_found session_id none = throw (iast_error ("unknown IAST session: " <> session_id))
finalize_found session_id (some s) = do
  now ← clock
  update_session session_id (λ x. finalized x now)
  complete_scan s.scan_id
  pure (finalized s now)

unfoldable pub finalize_session : String → Exec IastSession
unfolding finalize_found
finalize_session session_id w =
    finalize_found session_id (find_by session_key session_id w.db.sessions) w

abbrev session_status_value : IastSessionStatus → String
session_status_value IastSessionStatus.active = "active"
session_status_value IastSessionStatus.finalized = "finalized"
session_status_value IastSessionStatus.expired = "expired"

abbrev token_text : Option String → String
token_text none = ""
token_text (some t) = t

unfoldable pub check_token :
    (String → String) → String → Option String → Option IastSession → Try IastSession
check_token hash session_id token none = raise (iast_error ("unknown IAST session: " <> session_id))
check_token hash session_id token (some s) =
    if is_active s.status
    then (if s.collector_token_hash == hash (token_text token)
        then ok s
        else raise (iast_error "invalid collector token"))
    else raise (iast_error ("IAST session is not active (" <> session_status_value s.status <> ")"))

unfoldable pub authenticate_collector :
    (String → String) → String → Option String → Exec IastSession
unfolding get_session check_token
authenticate_collector hash session_id token = do
  s ← get_session session_id
  lift (check_token hash session_id token s)
