-- ===== src/Api/Routes/Reports.antt =====
-- api/routes/reports.py: the report of a scan in its two formats, and the gate for pipelines.
pub mod Gate
pub mod Rated
use omniscan.Prelude.{ℕ, ◌+◌, String, ◌<>◌, Bool, true, false, Option, none, some}
use omniscan.Prelude.{List, [], ◌∷◌, length, map, select, is_nil}
use omniscan.Prelude.Dict.{Dict, lookup, insert}
use omniscan.Prelude.Try.{Try, ok, raise, value_error, ◌>>=◌}
use omniscan.Python.Json.{Json, null, str, value_at}
use omniscan.Core.Enums.{
  ScanClass, ScanStatus, Severity, critical, high, medium, low, info, severity_value, TriageStatus,
  open_, confirmed, embargoed,
}
use omniscan.Core.Models.{Db, Scan}
use omniscan.Normalize.Sarif.{Location, Result, SarifLog}
use omniscan.Adapters.Tools.{Libraries, as_line, map_try, one_run}
use omniscan.Api.Errors.{not_found}
use omniscan.Api.Scans.{get_scan}
use omniscan.Api.Findings.{EffectiveFinding, Filter, list_findings, triage_value}

-- `_LEVEL`
unfoldable pub level_of : Severity → String
level_of critical = "error"
level_of high = "error"
level_of medium = "warning"
level_of low = "note"
level_of info = "none"

-- A value that pydantic takes for a `str` or for `None`.
unfoldable pub as_uri : Json → Try (Option String)
as_uri null = ok none
as_uri (str s) = ok (some s)
as_uri _ = raise (value_error "Input should be a valid string")

abbrev pub place_of : Option String → Option ℕ → Location
place_of uri line = record {
  physical_location = some (record {
    artifact_location = some (record { uri = uri });
    region = some (record { start_line = line; end_line = none });
  });
  logical_locations = [];
  properties = [];
}

-- One `Result` of the comprehension.
unfoldable pub result_of : Libraries → EffectiveFinding → Try Result
unfolding as_uri as_line value_at level_of
result_of lib e = do
  uri ← as_uri (value_at "file" e.finding.location)
  line ← as_line lib (value_at "start_line" e.finding.location)
  ok (record {
    rule_id = e.finding.rule_id;
    level = level_of e.effective_severity;
    message = e.finding.title;
    locations = place_of uri line ∷ [];
    properties =
        ("severity", str (severity_value e.effective_severity))
        ∷ ("status", str (triage_value e.effective_status))
        ∷ [];
  })

abbrev pub of_scan : String → Option Severity → Filter
of_scan scan_id least = record {
  project_id = none;
  scan_id = some scan_id;
  scan_class = none;
  min_severity = least;
  chainable_only = false;
  query = none;
}

-- `if scan is None: raise Problem(404, ...)`
unfoldable pub known_scan : Db → String → Try Scan
unfolding get_scan
known_scan db scan_id = elim (get_scan db scan_id) [
  | none ↦ raise (not_found ("unknown scan: " <> scan_id))
  | some scan ↦ ok scan
]

-- `report` with `format=sarif`
unfoldable pub sarif_report : Libraries → Db → String → Try SarifLog
unfolding known_scan result_of map_try
sarif_report lib db scan_id = do
  scan ← known_scan db scan_id
  results ← map_try (result_of lib) (list_findings db (of_scan scan_id none))
  ok (one_run "omniscan" [] results)

-- `counts[key] += 1`, for a key that the dict has.
unfoldable pub add_one : String → Dict ℕ → Dict ℕ
add_one key counts = elim (lookup key counts) [ none ↦ counts | some n ↦ insert key (n + 1) counts ]

abbrev pub no_counts : Dict ℕ
no_counts = ("critical", 0) ∷ ("high", 0) ∷ ("medium", 0) ∷ ("low", 0) ∷ ("info", 0) ∷ []

unfoldable pub count_all : List EffectiveFinding → Dict ℕ → Dict ℕ
unfolding add_one
count_all [] counts = counts
count_all (e ∷ effs) counts = count_all effs (add_one (severity_value e.effective_severity) counts)

-- The report in JSON; `findings` are the rows that it lists.
pub record Report : Type 0 where
  pub scan_id : String
  pub scan_class : ScanClass
  pub status : ScanStatus
  pub total : ℕ
  pub by_severity : Dict ℕ
  pub findings : List EffectiveFinding

-- `report` with `format=json`
unfoldable pub report : Db → String → Try Report
unfolding known_scan count_all
report db scan_id = do
  scan ← known_scan db scan_id
  let effs = list_findings db (of_scan scan_id none)
  ok (record {
    scan_id = scan_id;
    scan_class = scan.scan_class;
    status = scan.status;
    total = length effs;
    by_severity = count_all effs no_counts;
    findings = effs;
  })

-- `status.value in {"open", "confirmed", "embargoed"}`
abbrev pub is_blocking : EffectiveFinding → Bool
is_blocking e = elim e.effective_status [
  | open_ ↦ true
  | confirmed ↦ true
  | embargoed ↦ true
  | _ ↦ false
]

pub record GateOut : Type 0 where
  pub scan_id : String
  pub policy : String
  pub passed : Bool
  pub blocking_findings : List String

unfoldable pub gate : Db → String → String → Try GateOut
unfolding known_scan
gate db scan_id policy = do
  scan ← known_scan db scan_id
  let blocking = select is_blocking (list_findings db (of_scan scan_id (some high)))
  ok (record {
    scan_id = scan_id;
    policy = policy;
    passed = is_nil blocking;
    blocking_findings = map (λ e. e.finding.id) blocking;
  })
