-- ===== src/Core/Models.antt =====
-- core/models.py: the rows of the database, and the request payload that a scan stores. Times are
-- natural numbers. The relationship attributes are left out: nothing of the source reads them.
use omniscan.Prelude.{ℕ, String, Bool, Option, List}
use omniscan.Python.Json.{JsonDict}
use omniscan.Core.Enums.{
  ScanClass, ScanStatus, JobStatus, Severity, IastSessionStatus, TriageStatus,
}

-- `SourceSpec`, and the `source` dict of a stored request; an absent key is `none`.
pub record Source : Type 0 where
  pub type : Option String
  pub url : Option String
  pub ref : Option String
  pub path : Option String
  pub image : Option String

-- `TargetSpec`, and the `target` dict of a stored request.
pub record TargetSpec : Type 0 where
  pub base_url : Option String

-- The merged scope that `resolve_scope` returns and a stored request keeps under `_scope`.
pub record Scope : Type 0 where
  pub allow : List String
  pub deny : List String
  pub ownership_verified : Bool

-- The dict of `Scan.request`; a missing key is `none` or empty.
pub record Request : Type 0 where
  pub source : Source
  pub target : TargetSpec
  pub tools : Option (List String)
  pub options : JsonDict
  pub auth_ref : Option String
  pub scope : Option Scope
  pub rvd : Option JsonDict
  pub iast_session : Option String

pub record Application : Type 0 where
  pub id : String
  pub name : String
  pub slug : String
  pub created_at : ℕ

pub record Project : Type 0 where
  pub id : String
  pub name : String
  pub slug : String
  pub application_id : Option String
  pub created_at : ℕ

pub record Target : Type 0 where
  pub id : String
  pub project_id : String
  pub kind : String
  pub identifier : String
  pub scope_allow : List String
  pub scope_deny : List String
  pub ownership_verified : Bool
  pub created_at : ℕ

pub record Scan : Type 0 where
  pub id : String
  pub project_id : String
  pub scan_class : ScanClass
  pub status : ScanStatus
  pub request : Request
  pub idempotency_key : Option String
  pub correlation_id : String
  pub error : Option String
  pub created_at : ℕ

pub record ScanJob : Type 0 where
  pub id : String
  pub scan_id : String
  pub adapter : String
  pub scan_class : ScanClass
  pub status : JobStatus
  pub raw_output_ref : Option String
  pub error : Option String
  pub created_at : ℕ

pub record Finding : Type 0 where
  pub id : String
  pub scan_id : String
  pub project_id : String
  pub scan_class : ScanClass
  pub fingerprint : String
  pub rule_id : String
  pub title : String
  pub message : String
  pub severity : Severity
  pub location : JsonDict
  pub sources : List String
  pub extra : JsonDict
  pub chainability_score : ℕ
  pub first_seen : ℕ
  pub created_at : ℕ

pub record TriageRecord : Type 0 where
  pub id : String
  pub finding_id : String
  pub status : TriageStatus
  pub severity_override : Option Severity
  pub assignee_id : Option String
  pub reason : Option String
  pub actor_id : String
  pub created_at : ℕ

pub record Comment : Type 0 where
  pub id : String
  pub finding_id : String
  pub parent_id : Option String
  pub author_id : String
  pub body : String
  pub mentions : List String
  pub edited : Bool
  pub deleted : Bool
  pub created_at : ℕ

pub record IastSession : Type 0 where
  pub id : String
  pub project_id : String
  pub runtime : String
  pub status : IastSessionStatus
  pub collector_token_ref : String
  pub collector_token_hash : String
  pub scan_id : Option String
  pub created_at : ℕ
  pub expires_at : ℕ
  pub finalized_at : Option ℕ

pub record Webhook : Type 0 where
  pub id : String
  pub project_id : Option String
  pub direction : String
  pub target_url : Option String
  pub signing_secret : String
  pub events : List String
  pub active : Bool
  pub created_at : ℕ

pub record AuditLog : Type 0 where
  pub id : String
  pub actor_id : String
  pub action : String
  pub resource_type : String
  pub resource_id : String
  pub detail : JsonDict
  pub created_at : ℕ

-- The tables.
pub record Db : Type 0 where
  pub applications : List Application
  pub projects : List Project
  pub targets : List Target
  pub scans : List Scan
  pub jobs : List ScanJob
  pub findings : List Finding
  pub triage_records : List TriageRecord
  pub comments : List Comment
  pub sessions : List IastSession
  pub webhooks : List Webhook
  pub audit_log : List AuditLog
