-- ===== src/Core/Enums.antt =====
-- core/enums.py
use omniscan.Prelude.{ℕ, String, Bool, true, false}

pub data ScanClass : Type 0 where
  sast dast iast rvd : ScanClass

pub data ScanStatus : Type 0 where
  queued planning running normalizing completed failed cancelled : ScanStatus

pub data JobStatus : Type 0 where
  queued running normalizing completed failed cancelled : JobStatus

pub data Severity : Type 0 where
  critical high medium low info : Severity

-- `Severity.rank`
unfoldable pub severity_rank : Severity → ℕ
severity_rank info = 0
severity_rank low = 1
severity_rank medium = 2
severity_rank high = 3
severity_rank critical = 4

pub data IastSessionStatus : Type 0 where
  active finalized expired : IastSessionStatus

pub data TriageStatus : Type 0 where
  open_ confirmed false_positive accepted_risk fixed embargoed : TriageStatus

pub data Role : Type 0 where
  viewer scanner triager admin : Role

-- `Role.rank`
unfoldable pub role_rank : Role → ℕ
role_rank viewer = 0
role_rank scanner = 1
role_rank triager = 2
role_rank admin = 3

pub data RiskTier : Type 0 where
  known_known known_unknown unknown_unknown : RiskTier

-- `scan_class.value`, which is also `str(scan_class)`
unfoldable pub class_value : ScanClass → String
class_value sast = "SAST"
class_value dast = "DAST"
class_value iast = "IAST"
class_value rvd = "RVD"

unfoldable pub status_value : ScanStatus → String
status_value queued = "queued"
status_value planning = "planning"
status_value running = "running"
status_value normalizing = "normalizing"
status_value completed = "completed"
status_value failed = "failed"
status_value cancelled = "cancelled"

unfoldable pub severity_value : Severity → String
severity_value critical = "critical"
severity_value high = "high"
severity_value medium = "medium"
severity_value low = "low"
severity_value info = "info"

-- `==` and `is` between members of one enum.
abbrev pub same_class : ScanClass → ScanClass → Bool
same_class sast sast = true
same_class dast dast = true
same_class iast iast = true
same_class rvd rvd = true
same_class _ _ = false

abbrev pub same_severity : Severity → Severity → Bool
same_severity critical critical = true
same_severity high high = true
same_severity medium medium = true
same_severity low low = true
same_severity info info = true
same_severity _ _ = false

pub ScanClass-discrete : Discrete ScanClass
ScanClass-discrete = hlevel
