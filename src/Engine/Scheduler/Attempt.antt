-- ===== src/Engine/Scheduler/Attempt.antt =====
-- The request that a job hands to its adapter, and the part of `_run_job` that may raise.
use omniscan.Prelude.{String, ◌<>◌, Option, none, some}
use omniscan.Prelude.{List, [], ◌∷◌, if◌then◌else◌}
use omniscan.Prelude.Try.{Try, ok, ◌>>=◌, ◌>>◌}
use omniscan.Prelude.Dict.{insert}
use omniscan.Python.Json.{JsonDict}
use omniscan.Core.Enums.{rvd, same_class}
use omniscan.Core.Models.{Scan}
use omniscan.Normalize.Finding.{NormalizedFinding, normalize_sarif}
use omniscan.Adapters.Base.{ScanRequest, ScannerAdapter}
use omniscan.Adapters.Runner
use omniscan.Adapters.Runner.{Docker}
use omniscan.Engine.Scheduler.Platform.{Platform, scope_of}

-- `a | b` on dicts.
unfoldable pub merge : JsonDict → JsonDict → JsonDict
merge a [] = a
merge a ((k, v) ∷ b) = merge (insert k v a) b

-- The options of a job: those of the request, and the RVD settings over them.
unfoldable pub job_options : Scan → JsonDict
unfolding merge
job_options scan = elim scan.request.rvd [
  | none ↦ scan.request.options
  | some settings ↦
      (if same_class scan.scan_class rvd
        then merge scan.request.options settings
        else scan.request.options)
]

unfoldable pub scan_request_for : Scan → String → String → Option String → ScanRequest
unfolding job_options
scan_request_for scan job_id adapter_name workspace_path = record {
  scan_id = scan.id;
  job_id = job_id;
  scan_class = scan.scan_class;
  project_id = scan.project_id;
  tool = adapter_name;
  source = scan.request.source;
  target = scan.request.target;
  scope_allow = (scope_of scan.request).allow;
  scope_deny = (scope_of scan.request).deny;
  auth_ref = scan.request.auth_ref;
  options = job_options scan;
  workspace_path = workspace_path;
}

-- The `try` block of `_run_job`.
unfoldable pub scan_with :
    Platform → ScannerAdapter → ScanRequest → Try (String × List NormalizedFinding)
scan_with p adapter request = do
  adapter.validate_inputs request
  spec ← adapter.build_invocation request
  raw ← Runner.run p.docker adapter spec request
  raw_ref ← p.store ("raw/" <> request.job_id <> ".json") raw
  sarif ← adapter.parse_output raw
  normalized ← normalize_sarif p.runtime sarif request.scan_class
  ok (raw_ref, normalized)
