-- ===== src/Api/Routes/Findings.antt =====
-- api/routes/findings.py: what a principal is shown of findings.
pub mod Restricted
use omniscan.Prelude.{
  ℕ, String, ◌<>◌, Bool, true, false, not, ◌&&◌, Option, none, some, List, map, if◌then◌else◌,
}
use omniscan.Prelude.Dict.{has_key, insert}
use omniscan.Prelude.Table.{find_by}
use omniscan.Prelude.Try.{Try, ok, raise, ◌>>=◌}
use omniscan.Python.Json.{JsonDict, str}
use omniscan.Core.Enums.{ScanClass, Severity, TriageStatus}
use omniscan.Core.Models.{Db}
use omniscan.Core.Security.{Principal, can_view_poc}
use omniscan.Api.Errors.{not_found}
use omniscan.Api.Findings.{EffectiveFinding, Filter, finding_key, effective, list_findings}

-- `FindingOut`
pub record FindingOut : Type 0 where
  pub id : String
  pub scan_id : String
  pub project_id : String
  pub scan_class : ScanClass
  pub fingerprint : String
  pub rule_id : String
  pub title : String
  pub message : String
  pub severity : Severity
  pub effective_severity : Severity
  pub effective_status : TriageStatus
  pub location : JsonDict
  pub sources : List String
  pub chainability_score : ℕ
  pub extra : JsonDict
  pub first_seen : ℕ

abbrev pub restricted : String
restricted = "<restricted: requires admin>"

unfoldable pub shown_extra : Bool → JsonDict → JsonDict
shown_extra redact_poc extra =
    if redact_poc && has_key "poc_ref" extra then insert "poc_ref" (str restricted) extra else extra

-- `_to_out`
unfoldable pub to_out : Bool → EffectiveFinding → FindingOut
unfolding shown_extra
to_out redact_poc eff = record {
  id = eff.finding.id;
  scan_id = eff.finding.scan_id;
  project_id = eff.finding.project_id;
  scan_class = eff.finding.scan_class;
  fingerprint = eff.finding.fingerprint;
  rule_id = eff.finding.rule_id;
  title = eff.finding.title;
  message = eff.finding.message;
  severity = eff.finding.severity;
  effective_severity = eff.effective_severity;
  effective_status = eff.effective_status;
  location = eff.finding.location;
  sources = eff.finding.sources;
  chainability_score = eff.finding.chainability_score;
  extra = shown_extra redact_poc eff.finding.extra;
  first_seen = eff.finding.first_seen;
}

-- `GET /findings`
unfoldable pub list_out : Db → Principal → Filter → List FindingOut
list_out db principal o = map (to_out (not (can_view_poc principal))) (list_findings db o)

-- `GET /findings/{finding_id}`
unfoldable pub get_out : Db → Principal → String → Try FindingOut
get_out db principal finding_id = elim (find_by finding_key finding_id db.findings) [
  | none ↦ raise (not_found ("unknown finding: " <> finding_id))
  | some finding ↦ ok (to_out (not (can_view_poc principal)) (effective db finding))
]
