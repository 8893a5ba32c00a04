-- ===== src/Lib.antt =====
-- A model of OmniScan, a platform that plans security scans, runs scanners in isolation, and
-- normalizes and triages what they find.
--
-- Prelude    Tests, lists, texts, dictionaries, tables and exceptions as values: what the parts share.
-- Python     fnmatch, urlparse(...).hostname and JSON values, as far as the code uses them.
-- Core       core/: Enums and Models follow core/enums.py and core/models.py (a row is a record, a
--            table a list). World is the state of a service: the tables, the clock, the stream of
--            random texts, and the posts attempted; an operation is a function of it that returns a
--            value or raises, and `session_scope` rolls the tables back (core/db.py, core/ids.py).
--            ScopeGuard is core/scope_guard.py, Security is core/security.py and api/deps.py, Redact is
--            core/redact.py, Secrets and ObjectStore are core/secrets.py and core/objectstore.py.
-- Normalize  normalize/: SARIF, the severity mapping, fingerprints, and `dedup`.
-- Adapters   adapters/: Base, Registry and Runner follow the modules of these names, and an adapter is
--            a record of its methods. Sast and Dast hold the adapters of adapters/sast/ and
--            adapters/dast/, each with its validate, invocation and parse; Tools holds the libraries
--            they call and the readers they share, Builtin the order of their registration. Rvd is
--            adapters/rvd/: its Engine, the Heuristic and Ollama backends and their interface (Base), with
--            Chainability beside it.
-- Engine     engine/: Lifecycle (the transition tables), Planner, Workspace, and Scheduler, whose
--            Execute, Job, Attempt and Persist are `_run`, `_run_job`, its `try`, and
--            `_persist_findings`; every `async with session_scope()` is one `session_scope`.
-- Api        api/services/: audit, findings, webhooks, projects, scans, comments, iast and dashboard;
--            Routes is api/routes/ (reports, findings, scans, iast, webhooks), Errors is api/errors.py.
-- Agent      omniscan_iast/: the request Context, the Sinks that are patched, and the Reporter, for
--            which `net` tells which of its posts get through.
-- Tests      Concrete inputs and the theorems at them.
--
-- A scan is created by Api.Scans behind the scope guard, planned by Engine.Planner behind the same
-- guard, run by Engine.Scheduler through Adapters.Runner, normalized by Normalize, and triaged by
-- Api.Findings; Api.Webhooks tells other systems.
--
-- Recursion is structural, but for the compilation of a glob in Python.Fnmatch, which runs on the
-- length of the pattern as fuel: each step consumes a character of it. Numbers are natural;
-- scores and limits that are decimals are counted in thousandths, times in units of the clock.
--
-- Not modelled: the processes behind git and docker, HTTP, the HMAC and SHA-256 digests, `float` and
-- `str` of other values (parameters of `Machine`, `Docker`, `Courier` and `Runtime`);
-- `re.sub`, `json` and pydantic's reading of SARIF (parameters of `Libraries`); the database's
-- concurrency and constraints; the vault, the local model and the storage (parameters of
-- Secrets, Ollama and ObjectStore); the job queue, the command line, the migrations, and the routes
-- that only pass a request on and print what a service returns.
-- The column order of `list_findings` is that of the stored text. `Scan.updated_at` and similar
-- columns that no code reads are left out.
pub mod Prelude
pub mod Python
pub mod Core
pub mod Normalize
pub mod Adapters
pub mod Api
pub mod Engine
pub mod Agent
pub mod Tests
