-- ===== src/Tests/Routes.antt =====
-- The theorems of api/routes/ and of the dashboard at concrete inputs.
use omniscan.Prelude.{
  String, ◌==◌, ◌≡◌, refl, true, false, not, ◌&&◌, none, some, [], ◌∷◌, map, any, contains,
}
use omniscan.Prelude.Sort.{sort}
use omniscan.Prelude.Dict.{lookup}
use omniscan.Prelude.Table.{find_by}
use omniscan.Prelude.Try.{ok}
use omniscan.Python.Json.{str, obj, end, value_at}
use omniscan.Core.Enums.{sast, viewer, ScanStatus, severity_rank, severity_value}
use omniscan.Core.Models.{Db, Finding, Scan, Webhook}
use omniscan.Core.Security.{Principal, can_view_poc}
use omniscan.Core.World.{World}
use omniscan.Adapters.Tools.{one_run}
use omniscan.Normalize.Sarif.{SarifLog}
use omniscan.Api.Findings.{triage_value, effective, list_findings}
use omniscan.Api.Dashboard.{build, everything}
use omniscan.Api.Dashboard.Balanced.{Balanced, build-Balanced}
use omniscan.Api.Routes.Findings.{list_out}
use omniscan.Api.Routes.Findings.Restricted.{other_refs, list_out-other_refs}
use omniscan.Api.Routes.Reports.{GateOut, place_of, of_scan, gate, sarif_report}
use omniscan.Api.Routes.Reports.Gate.{blocks, gate-blocks}
use omniscan.Api.Routes.Reports.Rated.{rating, rating_of, sarif_report-rating}
use omniscan.Api.Routes.Webhooks.{inbound}
use omniscan.Api.Routes.Webhooks.Signed.{Signed, inbound-Signed}
use omniscan.Api.Webhooks.{sign}
use omniscan.Tests.Data.{courier, db, world, finding_with, git_target}
use omniscan.Tests.Scanners.{libraries}
use omniscan.Api.Webhooks.Manage.{inbound_request, trigger_inbound}

abbrev poc_finding : Finding
poc_finding = record (finding_with "fnd_2") {
  scan_id = "scan_1";
  extra = ("poc_ref", str "poc://poc_1#ab") ∷ [];
}

abbrev poc_db : Db
poc_db = record db { findings = poc_finding ∷ finding_with "fnd_1" ∷ [] }

abbrev viewing : Principal
viewing = record { user_id = "user_2"; email = "v@example.com"; role = viewer }

not_admin : can_view_poc viewing ≡ false
unfolding can_view_poc
not_admin = refl

list_out-other_refs_example :
    list_out (other_refs (λ f. str "poc://poc_9#cd") poc_db) viewing everything
    ≡ list_out poc_db viewing everything
list_out-other_refs_example =
    list_out-other_refs (λ f. str "poc://poc_9#cd") poc_db viewing everything not_admin

abbrev gated : GateOut
gated = record {
  scan_id = "scan_1";
  policy = "default";
  passed = false;
  blocking_findings = "fnd_2" ∷ [];
}

gate_ran : gate poc_db "scan_1" "default" ≡ ok gated
unfolding gate find_by list_findings sort severity_rank effective
gate_ran = refl

gate-blocks_example :
    (false ≡ not (any (blocks poc_db "scan_1") poc_db.findings))
    × ((id : String)
        → contains ("fnd_2" ∷ []) id
          ≡ any (λ f. f.id == id && blocks poc_db "scan_1" f) poc_db.findings)
gate-blocks_example = gate-blocks poc_db "scan_1" "default" gated refl gate_ran

build-Balanced_example : Balanced (build 24 (λ t. "2026-01-01") 9 poc_db none 30)
build-Balanced_example = build-Balanced 24 (λ t. "2026-01-01") 9 poc_db none 30

abbrev sarif_out : SarifLog
sarif_out = one_run "omniscan" [] (
    record {
      rule_id = "sqli";
      level = "error";
      message = "SQL injection";
      locations = place_of none none ∷ [];
      properties = ("severity", str "high") ∷ ("status", str "open") ∷ [];
    }
    ∷ [])

reported : sarif_report (libraries (obj end)) poc_db "scan_1" ≡ ok sarif_out
unfolding sarif_report find_by list_findings sort effective lookup value_at severity_value
    triage_value
reported = refl

sarif_report-rating_example :
    map (λ run. map (rating (λ s. none)) run.results) sarif_out.runs
    ≡ map rating_of (list_findings poc_db (of_scan "scan_1" none)) ∷ []
sarif_report-rating_example =
    sarif_report-rating (libraries (obj end)) (λ s. none) poc_db "scan_1" sarif_out reported

abbrev push_hook : Webhook
push_hook = record {
  id = "wh_2";
  project_id = some "proj_1";
  direction = "inbound";
  target_url = none;
  signing_secret = "whsec_b";
  events = [];
  active = true;
  created_at = 0;
}

abbrev push_world : World
push_world = record world { db = record db { webhooks = push_hook ∷ [] } }

abbrev pushed : Scan
pushed = record {
  id = "scan_r";
  project_id = "proj_1";
  scan_class = sast;
  status = ScanStatus.queued;
  request = inbound_request git_target "";
  idempotency_key = none;
  correlation_id = "corr_r";
  error = none;
  created_at = 9;
}

triggered :
    (inbound courier
      (libraries (obj end))
      "wh_2"
      "{}"
      (some (sign courier "whsec_b" "{}"))
      push_world).0
    ≡ ok pushed
unfolding inbound find_by sign trigger_inbound lookup
triggered = refl

inbound-Signed_example :
    Signed courier "wh_2" "{}" (some (sign courier "whsec_b" "{}")) push_world pushed
inbound-Signed_example =
    inbound-Signed courier (libraries (obj end)) "wh_2" "{}" (some (sign courier "whsec_b" "{}"))
      push_world pushed triggered
