-- ===== src/Api/Routes/Iast.antt =====
-- api/routes/iast.py: the collector's endpoint and the ends of a session, with the service's exceptions
-- as problems.
use omniscan.Prelude.{ℕ, String, Option, List}
use omniscan.Prelude.Try.{Exn, Try, ok, raise}
use omniscan.Python.Json.{JsonDict}
use omniscan.Core.Models.{IastSession}
use omniscan.Core.World.{Exec, ◌>>=◌, pure}
use omniscan.Normalize.Runtime.{Runtime}
use omniscan.Api.Errors.{not_found}
use omniscan.Api.Iast.{create_session, authenticate_collector, finalize_session}
use omniscan.Api.Iast.Collect.{ingest_events}

-- `except IastError as exc: raise Problem(...) from exc`
problem_of : (String → Exn) → Exn → Exn
problem_of problem (Exn.iast_error m) = problem m
problem_of problem e = e

converted {ℓ} : {A : Type ℓ} → (String → Exn) → Try A → Try A
unfolding problem_of
converted problem (ok a) = ok a
converted problem (raise e) = raise (problem_of problem e)

unfoldable pub catching {ℓ} : {A : Type ℓ} → (String → Exn) → Exec A → Exec A
unfolding converted
catching problem m w = let (r, v) = m w in (converted problem r, v)

-- `ingest_events`: the count and the session of the answer.
unfoldable pub ingest :
    (String → String) → Runtime → String → List JsonDict → Option String → Exec (ℕ × String)
unfolding catching authenticate_collector ingest_events
ingest hash rt session_id events token =
    catching (λ m. Exn.problem 401 "Unauthorized" m "urn:omniscan:iast")
      (do
        s ← authenticate_collector hash session_id token
        added ← ingest_events rt s events
        pure (added, session_id))

-- `finalize_session`
unfoldable pub finalize : String → Exec IastSession
unfolding catching finalize_session
finalize session_id = catching not_found (finalize_session session_id)

-- `create_session`
unfoldable pub create :
    (String → String) → String → String → String → Exec (IastSession × String × String)
unfolding catching create_session
create hash secret project_id runtime =
    catching (λ m. Exn.problem 400 "Invalid request" m "urn:omniscan:validation")
      (create_session hash secret project_id runtime)
