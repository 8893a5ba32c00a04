-- ===== src/Api/Findings.antt =====
-- api/services/findings.py: findings are immutable, triage is additive, the latest record wins.
pub mod Triage
use omniscan.Prelude.{
  ℕ, zero, String, ◌<>◌, ◌==◌, Bool, true, false, not, ◌&&◌, ◌||◌, Option, none, some,
}
use omniscan.Prelude.{List, [], ◌∷◌, ◌++◌, select, ltb, leb, eqb, if◌then◌else◌}
use omniscan.Prelude.Text.{truthy, lower, has_text}
use omniscan.Prelude.Sort.{sort}
use omniscan.Prelude.Table.{find_by}
use omniscan.Prelude.Try.{Try, ok, raise, value_error}
use omniscan.Python.Json.{JsonDict, null, str}
use omniscan.Core.Enums.{
  ScanClass, rvd, same_class, Severity, critical, high, medium, low, info, severity_rank,
  TriageStatus, embargoed, open_, confirmed, false_positive, accepted_risk, fixed, severity_value,
}
use omniscan.Core.Models.{Db, Finding, TriageRecord, AuditLog}
use omniscan.Core.World.{World, Exec, ◌>>=◌, ◌>>◌, pure, throw, gets, modify, new_id, clock}
use omniscan.Api.Audit.{Redactor, record_audit}

pub record EffectiveFinding : Type 0 where
  pub finding : Finding
  pub effective_severity : Severity
  pub effective_status : TriageStatus

abbrev pub finding_key : Finding → String
finding_key f = f.id

-- The row with the greatest `created_at`; of several the first.
unfoldable pub newer : Option TriageRecord → TriageRecord → Option TriageRecord
newer none r = some r
newer (some best) r = if ltb best.created_at r.created_at then some r else some best

unfoldable pub newest : Option TriageRecord → List TriageRecord → Option TriageRecord
unfolding newer
newest best [] = best
newest best (r ∷ rs) = newest (newer best r) rs

abbrev pub records_of : String → List TriageRecord → List TriageRecord
records_of finding_id = select (λ r. r.finding_id == finding_id)

-- `_latest_triage`
unfoldable pub latest_triage : Db → String → Option TriageRecord
unfolding newest
latest_triage db finding_id = newest none (records_of finding_id db.triage_records)

-- `_default_status`
unfoldable pub default_status : Finding → TriageStatus
default_status finding = if same_class finding.scan_class rvd then embargoed else open_

unfoldable pub effective_from : Finding → Option TriageRecord → EffectiveFinding
unfolding default_status
effective_from finding none = record {
  finding = finding;
  effective_severity = finding.severity;
  effective_status = default_status finding;
}
effective_from finding (some latest) = record {
  finding = finding;
  effective_severity = elim latest.severity_override [ none ↦ finding.severity | some s ↦ s ];
  effective_status = latest.status;
}

unfoldable pub effective : Db → Finding → EffectiveFinding
unfolding effective_from latest_triage
effective db finding = effective_from finding (latest_triage db finding.id)

-- The place of a severity in the alphabetic order of the column.
severity_text_order : Severity → ℕ
severity_text_order critical = 0
severity_text_order high = 1
severity_text_order info = 2
severity_text_order low = 3
severity_text_order medium = 4

-- `order_by(Finding.severity, Finding.created_at.desc())`: the column holds text.
unfoldable pub row_before : Finding → Finding → Bool
unfolding severity_text_order
row_before a b =
    let x = severity_text_order a.severity in
    let y = severity_text_order b.severity in ltb x y || eqb x y && ltb b.created_at a.created_at

abbrev pub matches_text : Option String → String → Bool
matches_text none value = true
matches_text (some wanted) value = if wanted == "" then true else value == wanted

abbrev pub matches_class : Option ScanClass → ScanClass → Bool
matches_class none value = true
matches_class (some wanted) value = same_class value wanted

abbrev pub reaches : Option Severity → Severity → Bool
reaches none value = true
reaches (some least) value = not (ltb (severity_rank value) (severity_rank least))

abbrev pub mentions_query : Option String → Finding → Bool
mentions_query none f = true
mentions_query (some query) f =
    if query == "" then true else has_text (lower query) (lower (f.title <> " " <> f.message))

-- The arguments of `list_findings`.
pub record Filter : Type 0 where
  pub project_id : Option String
  pub scan_id : Option String
  pub scan_class : Option ScanClass
  pub min_severity : Option Severity
  pub chainable_only : Bool
  pub query : Option String

abbrev pub selected : Filter → Finding → Bool
selected o f =
    matches_text o.project_id f.project_id
    && matches_text o.scan_id f.scan_id
    && matches_class o.scan_class f.scan_class

-- The loop over the rows.
unfoldable pub keep_rows : Db → Filter → List Finding → List EffectiveFinding
keep_rows db o [] = []
keep_rows db o (f ∷ rows) =
    let out = keep_rows db o rows in
    if o.chainable_only && eqb f.chainability_score 0
    then out
    else if not (mentions_query o.query f)
    then out
    else if reaches o.min_severity (effective db f).effective_severity
    then effective db f ∷ out
    else out

unfoldable pub list_findings : Db → Filter → List EffectiveFinding
unfolding keep_rows row_before
list_findings db o = keep_rows db o (sort row_before (select (selected o) db.findings))

found_finding : Option Finding → String → Exec Finding
found_finding none finding_id = throw (value_error ("unknown finding: " <> finding_id))
found_finding (some f) finding_id = pure f

unfoldable pub get_finding : String → Exec Finding
unfolding found_finding
get_finding finding_id w = found_finding (find_by finding_key finding_id w.db.findings) finding_id w

unfoldable pub add_record : TriageRecord → Exec TriageRecord
add_record r = do modify (λ db. record db { triage_records = db.triage_records ++ r ∷ [] }); pure r

unfoldable pub triage_value : TriageStatus → String
triage_value open_ = "open"
triage_value confirmed = "confirmed"
triage_value false_positive = "false_positive"
triage_value accepted_risk = "accepted_risk"
triage_value fixed = "fixed"
triage_value embargoed = "embargoed"

severity_text : Option Severity → Option String
severity_text none = none
severity_text (some s) = some (severity_value s)

abbrev optional_str : Option String → JsonDict → String → JsonDict
optional_str none rest key = (key, null) ∷ rest
optional_str (some s) rest key = (key, str s) ∷ rest

triage_detail : TriageStatus → Option Severity → Option String → JsonDict
unfolding triage_value severity_text
triage_detail status severity_override reason =
    ("status", str (triage_value status))
    ∷ optional_str (severity_text severity_override) (optional_str reason [] "reason")
        "severity_override"

unfoldable pub triage :
    Redactor
    → String
    → String
    → Option TriageStatus
    → Option Severity
    → Option String
    → Exec TriageRecord
unfolding get_finding add_record new_id record_audit triage_detail
triage redact finding_id actor_id status severity_override reason = do
  finding ← get_finding finding_id
  current ← gets (λ db. effective db finding)
  id ← new_id "tri"
  now ← clock
  r ← add_record (record {
    id = id;
    finding_id = finding_id;
    status = elim status [ none ↦ current.effective_status | some s ↦ s ];
    severity_override = severity_override;
    assignee_id = none;
    reason = reason;
    actor_id = actor_id;
    created_at = now;
  })
  record_audit redact actor_id "triage" "finding" finding_id
      (triage_detail r.status severity_override reason)
  pure r

unfoldable pub assign : Redactor → String → String → Option String → Exec TriageRecord
unfolding get_finding add_record new_id record_audit
assign redact finding_id actor_id assignee_id = do
  finding ← get_finding finding_id
  current ← gets (λ db. effective db finding)
  id ← new_id "tri"
  now ← clock
  r ← add_record (record {
    id = id;
    finding_id = finding_id;
    status = current.effective_status;
    severity_override = none;
    assignee_id = assignee_id;
    reason = none;
    actor_id = actor_id;
    created_at = now;
  })
  record_audit redact actor_id "assign" "finding" finding_id
      (optional_str assignee_id [] "assignee_id")
  pure r

-- `history`: the audit rows of a finding in the order of their times.
unfoldable pub history : Db → String → List AuditLog
history db finding_id =
    sort (λ a b. ltb a.created_at b.created_at)
      (select (λ a. a.resource_id == finding_id) db.audit_log)
