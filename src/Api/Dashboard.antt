-- ===== src/Api/Dashboard.antt =====
-- api/services/dashboard.py: the aggregates of the overview, without the names of the ranked projects and
-- applications. `day` is the length of a day in units of
-- the clock, and `date_of` prints the date of a time.
pub mod Balanced
use omniscan.Prelude.{
  ℕ, ◌+◌, ◌-◌, ◌*◌, zero, suc, ltb, leb, eqb, String, ◌==◌, Bool, true, false, not, ◌&&◌, ◌||◌,
  Option, none, some,
}
use omniscan.Prelude.{
  List, [], ◌∷◌, ◌++◌, length, map, select, any, contains, is_nil, if◌then◌else◌,
}
use omniscan.Prelude.Text.{truthy, text_before}
use omniscan.Prelude.Dict.{Dict, lookup, insert}
use omniscan.Prelude.Sort.{sort}
use omniscan.Prelude.Table.{find_by}
use omniscan.Core.Enums.{
  ScanClass, sast, dast, iast, rvd, same_class, class_value, severity_value, TriageStatus, fixed,
  false_positive, accepted_risk,
}
use omniscan.Core.Models.{Db, Application, Project, Scan}
use omniscan.Api.Findings.{EffectiveFinding, Filter, list_findings}
use omniscan.Api.Routes.Reports.{add_one, no_counts, count_all}

-- `set(engines) if engines else set(ScanClass)`
abbrev pub all_classes : List ScanClass
all_classes = sast ∷ dast ∷ iast ∷ rvd ∷ []

unfoldable pub engine_set : Option (List ScanClass) → List ScanClass
engine_set none = all_classes
engine_set (some engines) =
    if is_nil engines then all_classes else select (λ c. any (same_class c) engines) all_classes

abbrev pub everything : Filter
everything = record {
  project_id = none;
  scan_id = none;
  scan_class = none;
  min_severity = none;
  chainable_only = false;
  query = none;
}

unfoldable pub in_window : List ScanClass → ℕ → EffectiveFinding → Bool
in_window engines since e =
    any (λ c. same_class e.finding.scan_class c) engines && leb since e.finding.first_seen

-- `_RESOLVED`, `_SUPPRESSED`
abbrev pub is_suppressed : EffectiveFinding → Bool
is_suppressed e = elim e.effective_status [
  | false_positive ↦ true
  | accepted_risk ↦ true
  | _ ↦ false
]

abbrev pub is_fixed : EffectiveFinding → Bool
is_fixed e = elim e.effective_status [ fixed ↦ true | _ ↦ false ]

abbrev pub is_resolved : EffectiveFinding → Bool
is_resolved e = elim e.effective_status [
  | fixed ↦ true
  | false_positive ↦ true
  | accepted_risk ↦ true
  | _ ↦ false
]

-- `by_engine[scan_class][sev] += 1`
unfoldable pub add_engine : EffectiveFinding → Dict (Dict ℕ) → Dict (Dict ℕ)
unfolding add_one
add_engine e by_engine = elim (lookup (class_value e.finding.scan_class) by_engine) [
  | none ↦ by_engine
  | some counts ↦
      insert (class_value e.finding.scan_class)
        (add_one (severity_value e.effective_severity) counts) by_engine
]

unfoldable pub count_engines : List EffectiveFinding → Dict (Dict ℕ) → Dict (Dict ℕ)
unfolding add_engine
count_engines [] by_engine = by_engine
count_engines (e ∷ effs) by_engine = count_engines effs (add_engine e by_engine)

abbrev no_engines : Dict (Dict ℕ)
no_engines = map (λ c. (class_value c, no_counts)) all_classes

-- A rollup of a project or of an application, whose `projects` is a set.
pub record Roll : Type 0 where
  pub total : ℕ
  pub counts : Dict ℕ
  pub projects : List String

abbrev pub empty_roll : Roll
empty_roll = record { total = 0; counts = no_counts; projects = [] }

roll_in : EffectiveFinding → Roll → Roll
unfolding add_one
roll_in e r = record {
  total = r.total + 1;
  counts = add_one (severity_value e.effective_severity) r.counts;
  projects =
      if contains r.projects e.finding.project_id
      then r.projects
      else r.projects ++ e.finding.project_id ∷ [];
}

-- `roll.setdefault(key, ...)` and the updates of the entry.
unfoldable pub add_roll : String → EffectiveFinding → Dict Roll → Dict Roll
unfolding roll_in
add_roll key e [] = (key, roll_in e empty_roll) ∷ []
add_roll key e ((k, r) ∷ rolls) =
    if k == key then (k, roll_in e r) ∷ rolls else (k, r) ∷ add_roll key e rolls

-- `projects[pid].application_id if pid in projects else None`
unfoldable pub application_of : Db → String → Option String
application_of db pid = elim (find_by (λ (p : Project). p.id) pid db.projects) [
  | none ↦ none
  | some p ↦ if truthy p.application_id then p.application_id else none
]

unfoldable pub roll_projects : List EffectiveFinding → Dict Roll → Dict Roll
unfolding add_roll
roll_projects [] rolls = rolls
roll_projects (e ∷ effs) rolls = roll_projects effs (add_roll e.finding.project_id e rolls)

unfoldable pub roll_applications : Db → List EffectiveFinding → Dict Roll → Dict Roll
unfolding add_roll application_of
roll_applications db [] rolls = rolls
roll_applications db (e ∷ effs) rolls = elim (application_of db e.finding.project_id) [
  | none ↦ roll_applications db effs rolls
  | some app_id ↦ roll_applications db effs (add_roll app_id e rolls)
]

first_of {ℓ} : {A : Type ℓ} → ℕ → List A → List A
first_of zero xs = []
first_of (suc n) [] = []
first_of (suc n) (x ∷ xs) = x ∷ first_of n xs

-- `_rank`, with the rolls themselves.
unfoldable pub rank : Dict Roll → Dict Roll
unfolding first_of text_before
rank rolls =
    first_of 10 (
      sort (λ a b. ltb b.1.total a.1.total || eqb a.1.total b.1.total && text_before a.0 b.0) rolls)

-- The findings of a day.
pub record Day : Type 0 where
  pub open_ : ℕ
  pub resolved : ℕ

abbrev pub count_in : Bool → Day → Day
count_in true d = record { open_ = d.open_; resolved = d.resolved + 1 }
count_in false d = record { open_ = d.open_ + 1; resolved = d.resolved }

-- `per_day[day][bucket] += 1`
unfoldable pub add_day : String → Bool → Dict Day → Dict Day
add_day day b [] = (day, count_in b (record { open_ = 0; resolved = 0 })) ∷ []
add_day day b ((d, c) ∷ per_day) =
    if d == day then (d, count_in b c) ∷ per_day else (d, c) ∷ add_day day b per_day

unfoldable pub count_days : (ℕ → String) → List EffectiveFinding → Dict Day → Dict Day
unfolding add_day
count_days date_of [] per_day = per_day
count_days date_of (e ∷ effs) per_day =
    count_days date_of effs (add_day (date_of e.finding.first_seen) (is_resolved e) per_day)

-- The payload; the rolls of the two rankings keep their counts.
pub record Dashboard : Type 0 where
  pub trend_days : ℕ
  pub engines : List String
  pub applications : ℕ
  pub projects : ℕ
  pub scans : ℕ
  pub findings_by_severity : Dict ℕ
  pub findings_by_engine : Dict (Dict ℕ)
  pub remediations : ℕ
  pub suppressions : ℕ
  pub trends : Dict Day
  pub top_applications : Dict Roll
  pub top_projects : Dict Roll
  pub total_findings : ℕ

-- `now - timedelta(days=trend_days)`, at the first time of the clock at the earliest.
abbrev pub since_of : ℕ → ℕ → ℕ → ℕ
since_of day now trend_days = now - trend_days * day

unfoldable pub build : ℕ → (ℕ → String) → ℕ → Db → Option (List ScanClass) → ℕ → Dashboard
unfolding engine_set in_window count_all count_engines roll_projects roll_applications rank
    count_days text_before
build day date_of now db engines trend_days =
    let since = since_of day now trend_days in
    let effs = select (in_window (engine_set engines) since) (list_findings db everything) in
    record {
      trend_days = trend_days;
      engines = sort text_before (map class_value (engine_set engines));
      applications = length db.applications;
      projects = length db.projects;
      scans = length (select (λ (s : Scan). leb since s.created_at) db.scans);
      findings_by_severity = count_all effs no_counts;
      findings_by_engine = count_engines effs no_engines;
      remediations = length (select is_fixed effs);
      suppressions = length (select is_suppressed effs);
      trends = sort (λ a b. text_before a.0 b.0) (count_days date_of effs []);
      top_applications = rank (roll_applications db effs []);
      top_projects = rank (roll_projects effs []);
      total_findings = length effs;
    }
