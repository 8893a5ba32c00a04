-- ===== src/Api/Dashboard/Balanced.antt =====
-- The sums of the dashboard.
use omniscan.Prelude.{
  ℕ, ◌+◌, String, ◌==◌, ◌≡◌, refl, ◌∙◌, ap, Bool, true, false, Option, some, List, [], ◌∷◌, length,
  select, arith, inl, inr, Bool-cases,
}
use omniscan.Prelude.Dict.{Dict, lookup, insert}
use omniscan.Prelude.Sort.{sort, place}
use omniscan.Core.Enums.{
  ScanClass, Severity, critical, high, medium, low, info, severity_value, TriageStatus, open_,
  confirmed, false_positive, accepted_risk, fixed, embargoed,
}
use omniscan.Core.Models.{Db}
use omniscan.Api.Findings.{EffectiveFinding, list_findings}
use omniscan.Api.Routes.Reports.{add_one, no_counts, count_all}
use omniscan.Api.Routes.Reports.Rated.{lookup-add_one}
use omniscan.Api.Dashboard.{
  Dashboard, Day, count_in, add_day, count_days, is_fixed, is_suppressed, is_resolved, in_window,
  engine_set, since_of, everything, build,
}

module _ {A : Type 0} (f : A → ℕ) where
  abbrev pub sum_of : List A → ℕ
  sum_of [] = 0
  sum_of (x ∷ xs) = f x + sum_of xs

  sum_of-place :
      (before : A → A → Bool) (x : A) (ys : List A) → sum_of (place before x ys) ≡ f x + sum_of ys
  unfolding place
  sum_of-place before x [] = refl
  sum_of-place before x (y ∷ ys) = ground (arith, sum_of-place before x ys)

  sum_of-sort : (before : A → A → Bool) (xs : List A) → sum_of (sort before xs) ≡ sum_of xs
  unfolding sort
  sum_of-sort before [] = refl
  sum_of-sort before (x ∷ xs) =
      omega (arith, sum_of-place before x (sort before xs), sum_of-sort before xs)

abbrev pub value_of : String × ℕ → ℕ
value_of entry = entry.1

sum_of-insert :
    (key : String) (n v : ℕ) (counts : Dict ℕ)
    → lookup key counts ≡ some n
    → sum_of value_of (insert key v counts) + n ≡ sum_of value_of counts + v
unfolding lookup insert
sum_of-insert key n v [] h = absurd (cc h)
sum_of-insert key n v ((k, m) ∷ counts) h = ground (arith, h, sum_of-insert key n v counts)

sum_of-add_one :
    (key : String) (n : ℕ) (counts : Dict ℕ)
    → lookup key counts ≡ some n
    → sum_of value_of (add_one key counts) ≡ sum_of value_of counts + 1
unfolding add_one
sum_of-add_one key n counts h =
    let added : add_one key counts ≡ insert key (n + 1) counts = rw (h, add_one) refl in
    ap (sum_of value_of) added ∙ omega (arith, sum_of-insert key n (n + 1) counts h)

-- Every severity has a count.
abbrev Complete : Dict ℕ → Type 0
Complete counts = (s : Severity) → (n : ℕ) × (lookup (severity_value s) counts ≡ some n)

sum_of-count_all :
    (effs : List EffectiveFinding) (counts : Dict ℕ)
    → Complete counts
    → sum_of value_of (count_all effs counts) ≡ sum_of value_of counts + length effs
unfolding count_all
sum_of-count_all [] counts complete = omega arith
sum_of-count_all (e ∷ effs) counts complete =
    let key = severity_value e.effective_severity in
    let (n, h) = complete e.effective_severity in
    let still : Complete (add_one key counts) =
      λ s. let (m, g) = complete s in (_, lookup-add_one key (severity_value s) m counts g) in
    omega (arith, sum_of-count_all effs (add_one key counts) still, sum_of-add_one key n counts h)

no_counts-Complete : Complete no_counts
unfolding lookup severity_value
no_counts-Complete critical = (0, refl)
no_counts-Complete high = (0, refl)
no_counts-Complete medium = (0, refl)
no_counts-Complete low = (0, refl)
no_counts-Complete info = (0, refl)

abbrev pub findings_in : String × Day → ℕ
findings_in day = day.1.open_ + day.1.resolved

abbrev pub resolved_in : String × Day → ℕ
resolved_in day = day.1.resolved

abbrev one_if : Bool → ℕ
one_if true = 1
one_if false = 0

findings_in-count_in :
    (b : Bool) (d : String) (c : Day) → findings_in (d, count_in b c) ≡ findings_in (d, c) + 1
findings_in-count_in true d c = omega arith
findings_in-count_in false d c = omega arith

resolved_in-count_in :
    (b : Bool) (d : String) (c : Day)
    → resolved_in (d, count_in b c) ≡ resolved_in (d, c) + one_if b
resolved_in-count_in true d c = refl
resolved_in-count_in false d c = omega arith

sum_of-add_day :
    (day : String) (b : Bool) (days : Dict Day)
    → (sum_of findings_in (add_day day b days) ≡ sum_of findings_in days + 1)
      × (sum_of resolved_in (add_day day b days) ≡ sum_of resolved_in days + one_if b)
unfolding add_day
sum_of-add_day day b [] =
    let none_yet : Day = record { open_ = 0; resolved = 0 } in
    (
      omega (arith, findings_in-count_in b day none_yet),
      omega (arith, resolved_in-count_in b day none_yet),
    )
sum_of-add_day day b ((d, c) ∷ days) =
    let (found, resolved) = sum_of-add_day day b days in
    elim (Bool-cases (d == day)) [
      | inl e ↦ (
        rw e (omega (arith, findings_in-count_in b d c)),
        rw e (omega (arith, resolved_in-count_in b d c)),
      )
      | inr e ↦ (rw e (omega (arith, found)), rw e (omega (arith, resolved)))
    ]

resolved_once :
    (e : EffectiveFinding) (s : TriageStatus)
    → e.effective_status ≡ s
    → one_if (is_resolved e) ≡ one_if (is_fixed e) + one_if (is_suppressed e)
resolved_once e open_ h = rw h (omega arith)
resolved_once e confirmed h = rw h (omega arith)
resolved_once e false_positive h = rw h (omega arith)
resolved_once e accepted_risk h = rw h (omega arith)
resolved_once e fixed h = rw h (omega arith)
resolved_once e embargoed h = rw h (omega arith)

one_if-is_resolved :
    (e : EffectiveFinding) → one_if (is_resolved e) ≡ one_if (is_fixed e) + one_if (is_suppressed e)
one_if-is_resolved e = resolved_once e e.effective_status refl

length-select :
    (p : EffectiveFinding → Bool) (e : EffectiveFinding) (effs : List EffectiveFinding)
    → length (select p (e ∷ effs)) ≡ one_if (p e) + length (select p effs)
length-select p e effs = elim (Bool-cases (p e)) [
  | inl h ↦ rw h (omega arith)
  | inr h ↦ rw h (omega arith)
]

sum_of-count_days :
    (date_of : ℕ → String) (effs : List EffectiveFinding) (days : Dict Day)
    → (sum_of findings_in (count_days date_of effs days) ≡ sum_of findings_in days + length effs)
      × (sum_of resolved_in (count_days date_of effs days)
          ≡ sum_of resolved_in days
            + (length (select is_fixed effs) + length (select is_suppressed effs)))
unfolding count_days
sum_of-count_days date_of [] days = (omega arith, omega arith)
sum_of-count_days date_of (e ∷ effs) days =
    let (found, resolved) = sum_of-add_day (date_of e.finding.first_seen) (is_resolved e) days in
    let (all_found, all_resolved) =
      sum_of-count_days date_of effs
        (add_day (date_of e.finding.first_seen) (is_resolved e) days) in
    (
      omega (arith, found, all_found),
      omega (
        arith,
        resolved,
        all_resolved,
        one_if-is_resolved e,
        length-select is_fixed e effs,
        length-select is_suppressed e effs,
      ),
    )

-- The severities and the days each account for every finding that is counted, and the days for every
-- one that was remediated or suppressed as resolved.
pub record Balanced (d : Dashboard) : Type 0 where
  pub severities : sum_of value_of d.findings_by_severity ≡ d.total_findings
  pub days : sum_of findings_in d.trends ≡ d.total_findings
  pub resolved : sum_of resolved_in d.trends ≡ d.remediations + d.suppressions

-- Of every dashboard, whatever the tables, the engines and the window: the counts by severity and the
-- days of the trend each add up to the total, and the resolved findings of the trend to the
-- remediations and the suppressions.
pub build-Balanced :
    (day : ℕ) (date_of : ℕ → String) (now : ℕ) (db : Db) (engines : Option (List ScanClass))
    (trend_days : ℕ)
    → Balanced (build day date_of now db engines trend_days)
unfolding build
build-Balanced day date_of now db engines trend_days =
    let effs =
      select (in_window (engine_set engines) (since_of day now trend_days))
        (list_findings db everything) in
    let (found, resolved) = sum_of-count_days date_of effs [] in
    record {
      severities = sum_of-count_all effs no_counts no_counts-Complete ∙ omega arith;
      days = sum_of-sort findings_in _ (count_days date_of effs []) ∙ found ∙ omega arith;
      resolved = sum_of-sort resolved_in _ (count_days date_of effs []) ∙ resolved ∙ omega arith;
    }
