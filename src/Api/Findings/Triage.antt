-- ===== src/Api/Findings/Triage.antt =====
-- What a triage and an assignment do to the view of a finding.
use omniscan.Prelude.{ℕ, String, ◌<>◌, ◌==◌, ◌≡◌, ◌<◌, refl, sym, false, Option, none, some}
use omniscan.Prelude.{List, [], ◌∷◌, ◌++◌, All, if◌then◌else◌, arith, eq_refl}
use omniscan.Prelude.Table.{find_by, find_by-key}
use omniscan.Core.Enums.{Severity, TriageStatus}
use omniscan.Core.Models.{Db, Finding, TriageRecord}
use omniscan.Core.World.{World, new_id}
use omniscan.Api.Audit.{Redactor, record_audit}
use omniscan.Api.Findings.{
  finding_key, newer, newest, records_of, latest_triage, effective_from, effective, found_finding,
  get_finding, add_record, triage, assign,
}

-- Every record of the finding is older than `now`.
abbrev pub Older : ℕ → String → List TriageRecord → Type 0
Older now finding_id records = All (λ r. r.created_at < now) (records_of finding_id records)

Before : ℕ → Option TriageRecord → Type 0
Before now none = Unit
Before now (some r) = r.created_at < now

newest-append :
    (best : Option TriageRecord) (r : TriageRecord) (rs : List TriageRecord)
    → Before r.created_at best
    → All (λ x. x.created_at < r.created_at) rs
    → newest best (rs ++ r ∷ []) ≡ some r
unfolding newest newer Before
newest-append none r [] h a = refl
newest-append (some best) r [] h a = ground arith
newest-append none r (x ∷ rs) h (lt, a) = newest-append (some x) r rs lt a
newest-append (some best) r (x ∷ rs) h (lt, a) =
    ground (arith, newest-append (some x) r rs lt a, newest-append (some best) r rs h a)

records_of-append :
    (k : String) (r : TriageRecord) (rs : List TriageRecord)
    → records_of k (rs ++ r ∷ [])
      ≡ (if r.finding_id == k then records_of k rs ++ r ∷ [] else records_of k rs)
records_of-append k r [] = ground arith
records_of-append k r (x ∷ rs) = ground (arith, records_of-append k r rs)

latest-append :
    (db after : Db) (r : TriageRecord)
    → Older r.created_at r.finding_id db.triage_records
    → after.triage_records ≡ db.triage_records ++ r ∷ []
    → latest_triage after r.finding_id ≡ some r
unfolding latest_triage Before
latest-append db after r older same = ground (
  arith,
  records_of-append r.finding_id r db.triage_records,
  eq_refl r.finding_id,
  newest-append none r (records_of r.finding_id db.triage_records) tt older,
)

latest-other :
    (db after : Db) (r : TriageRecord) (k : String)
    → (r.finding_id == k) ≡ false
    → after.triage_records ≡ db.triage_records ++ r ∷ []
    → latest_triage after k ≡ latest_triage db k
unfolding latest_triage
latest-other db after r k other same = ground (arith, records_of-append k r db.triage_records)

-- What is seen of the finding, and of the others, after an operation.
pub record Seen (f : Finding) (severity : Severity) (status : TriageStatus) (before after : Db)
    : Type 0 where
  pub view :
      effective after f
      ≡ record { finding = f; effective_severity = severity; effective_status = status }
  pub others : (g : Finding) → (f.id == g.id) ≡ false → effective after g ≡ effective before g
  pub immutable : after.findings ≡ before.findings

seen :
    (f : Finding) (r : TriageRecord) (before after : Db)
    → r.finding_id ≡ f.id
    → Older r.created_at f.id before.triage_records
    → after.triage_records ≡ before.triage_records ++ r ∷ []
    → after.findings ≡ before.findings
    → Seen f (elim r.severity_override [ none ↦ f.severity | some s ↦ s ]) r.status before after
unfolding effective effective_from
seen f r before after own older added same = record {
  view = rw (latest_lem) refl;
  others = λ g other. rw (latest-other before after r g.id (rw own other) added) refl;
  immutable = same;
}
  where
    latest_lem : latest_triage after f.id ≡ some r
    latest_lem = rw (sym own) (latest-append before after r (rw own older) added)

-- A triage of a finding, made later than its earlier records, is what is seen of it from then on:
-- the status that was given, or else the one seen before, and the severity that was given, or else
-- the scanner's. No other finding is seen otherwise, and no finding is changed.
pub triage-Seen :
    (redact : Redactor) (actor : String) (status : Option TriageStatus) (severity : Option Severity)
    (reason : Option String) (f : Finding) (k : String) (w : World)
    → find_by finding_key k w.db.findings ≡ some f
    → Older w.now k w.db.triage_records
    → Seen f
        (elim severity [ none ↦ f.severity | some s ↦ s ])
        (elim status [ none ↦ (effective w.db f).effective_status | some s ↦ s ])
        w.db
        (triage redact k actor status severity reason w).1.db
unfolding triage get_finding found_finding add_record record_audit new_id
triage-Seen redact actor status severity reason f k w found older =
    let own = find_by-key finding_key k f w.db.findings found in
    let made : TriageRecord = record {
      id = "tri" <> "_" <> w.rand w.draws;
      finding_id = k;
      status = elim status [ none ↦ (effective w.db f).effective_status | some s ↦ s ];
      severity_override = severity;
      assignee_id = none;
      reason = reason;
      actor_id = actor;
      created_at = w.now;
    } in
    seen f made w.db (triage redact k actor status severity reason w).1.db (sym own) (rw own older)
      (rw found refl) (rw found refl)

-- An assignment of a finding, made later than its earlier records, keeps the status that is seen of
-- it, and sets the severity seen of it to the scanner's, even if an earlier triage overrode it.
pub assign-Seen :
    (redact : Redactor) (actor : String) (assignee : Option String) (f : Finding) (k : String)
    (w : World)
    → find_by finding_key k w.db.findings ≡ some f
    → Older w.now k w.db.triage_records
    → Seen f f.severity
        (effective w.db f).effective_status
        w.db
        (assign redact k actor assignee w).1.db
unfolding assign get_finding found_finding add_record record_audit new_id
assign-Seen redact actor assignee f k w found older =
    let own = find_by-key finding_key k f w.db.findings found in
    let made : TriageRecord = record {
      id = "tri" <> "_" <> w.rand w.draws;
      finding_id = k;
      status = (effective w.db f).effective_status;
      severity_override = none;
      assignee_id = assignee;
      reason = none;
      actor_id = actor;
      created_at = w.now;
    } in
    seen f made w.db (assign redact k actor assignee w).1.db (sym own) (rw own older)
      (rw found refl) (rw found refl)
