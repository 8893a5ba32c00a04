-- ===== src/Api/Routes/Reports/Rated.antt =====
-- What the reports say of the severities.
use mathlib.Core.Path.{subst}
use omniscan.Prelude.{
  true, false, suc, eq_iff, inl, inr, Option-cases, if◌then◌else◌, ◌==◌, sym, ◌∙◌, ℕ, ◌+◌, String,
  ◌≡◌, refl, ap, Option, none, some, Bool, List, [], ◌∷◌, length, map, select, arith,
}
use omniscan.Prelude.Text.{lower, strip}
use omniscan.Prelude.Dict.{Dict, lookup, lookup-insert}
use omniscan.Prelude.Try.{ok, bind-ok, ok-injective}
use omniscan.Python.Json.{str, value_at}
use omniscan.Core.Enums.{Severity, critical, high, medium, low, info, severity_value}
use omniscan.Core.Models.{Db}
use omniscan.Normalize.Severity.{resolve, from_text}
use omniscan.Normalize.Sarif.{Result, SarifLog}
use omniscan.Adapters.Tools.{Libraries, as_line, map_try}
use omniscan.Adapters.Tools.Loops.{map_try-map}
use omniscan.Api.Findings.{EffectiveFinding, list_findings}
use omniscan.Api.Routes.Reports.{
  Report, of_scan, known_scan, as_uri, result_of, sarif_report, report, count_all, add_one,
  no_counts,
}

-- The rule and the severity that the normalizer reads off a result.
abbrev pub rating : (String → Option ℕ) → Result → String × Severity
rating float_text r = (r.rule_id, resolve float_text r.level r.properties)

abbrev pub rating_of : EffectiveFinding → String × Severity
rating_of e = (e.finding.rule_id, e.effective_severity)

resolve-severity_value :
    (float_text : String → Option ℕ) (level status : String) (s : Severity)
    → resolve float_text level (("severity", str (severity_value s)) ∷ ("status", str status) ∷ [])
      ≡ s
unfolding resolve severity_value from_text lookup lower strip
resolve-severity_value float_text level status critical = refl
resolve-severity_value float_text level status high = refl
resolve-severity_value float_text level status medium = refl
resolve-severity_value float_text level status low = refl
resolve-severity_value float_text level status info = refl

result_of-rating :
    (lib : Libraries) (float_text : String → Option ℕ) (e : EffectiveFinding) (r : Result)
    → result_of lib e ≡ ok r
    → rating float_text r ≡ rating_of e
unfolding result_of
result_of-rating lib float_text e r h =
    let (uri, _, h1) = bind-ok (as_uri (value_at "file" e.finding.location)) _ r h in
    let (line, _, h2) = bind-ok (as_line lib (value_at "start_line" e.finding.location)) _ r h1 in
    ap (rating float_text) (sym (ok-injective h2))
    ∙ ap (λ s. (e.finding.rule_id, s)) (resolve-severity_value float_text _ _ e.effective_severity)

-- Whoever normalizes a SARIF report again gets, in the same order, the rule and the present severity
-- of every finding of the scan.
pub sarif_report-rating :
    (lib : Libraries) (float_text : String → Option ℕ) (db : Db) (scan_id : String)
    (sarif : SarifLog)
    → sarif_report lib db scan_id ≡ ok sarif
    → map (λ run. map (rating float_text) run.results) sarif.runs
      ≡ map rating_of (list_findings db (of_scan scan_id none)) ∷ []
unfolding sarif_report
sarif_report-rating lib float_text db scan_id sarif h =
    let effs = list_findings db (of_scan scan_id none) in
    let (scan, _, h1) = bind-ok (known_scan db scan_id) _ sarif h in
    let (results, read, h2) = bind-ok (map_try (result_of lib) effs) _ sarif h1 in
    ap (λ s. map (λ run. map (rating float_text) run.results) s.runs) (sym (ok-injective h2))
    ∙ ap (λ xs. xs ∷ [])
        (map_try-map (result_of lib) (rating float_text) rating_of (result_of-rating lib float_text)
          effs results read)

-- The number of the findings with a severity.
abbrev pub tally : Severity → List EffectiveFinding → ℕ
tally s effs = length (select (λ e. severity_value e.effective_severity == severity_value s) effs)

pub lookup-add_one :
    (j k : String) (n : ℕ) (counts : Dict ℕ)
    → lookup k counts ≡ some n
    → lookup k (add_one j counts) ≡ some (if j == k then n + 1 else n)
unfolding add_one
lookup-add_one j k n counts h = elim (Option-cases (lookup j counts)) [
  | inl e ↦ ground (arith, e, eq_iff j k, h)
  | inr (m, e) ↦ ground (arith, e, eq_iff j k, h, lookup-insert j k (m + 1) counts)
]

shift_tally :
    (b : Bool) (n : ℕ) (xs : List EffectiveFinding) (x : EffectiveFinding)
    → (if b then n + 1 else n) + length xs ≡ n + length (if b then x ∷ xs else xs)
shift_tally true n xs x = omega arith
shift_tally false n xs x = refl

starts_at_zero : (s : Severity) → lookup (severity_value s) no_counts ≡ some 0
unfolding lookup severity_value
starts_at_zero critical = refl
starts_at_zero high = refl
starts_at_zero medium = refl
starts_at_zero low = refl
starts_at_zero info = refl

split_tally :
    (s : Severity) (e : EffectiveFinding) (n : ℕ) (cs hs ms ls is : List EffectiveFinding)
    → n ≡ length cs + length hs + length ms + length ls + length is
    → let push : Severity → List EffectiveFinding → ℕ =
        λ t xs. length (if severity_value s == severity_value t then e ∷ xs else xs) in
      suc n ≡ push critical cs + push high hs + push medium ms + push low ls + push info is
unfolding severity_value
split_tally critical e n cs hs ms ls is h = omega (arith, h)
split_tally high e n cs hs ms ls is h = omega (arith, h)
split_tally medium e n cs hs ms ls is h = omega (arith, h)
split_tally low e n cs hs ms ls is h = omega (arith, h)
split_tally info e n cs hs ms ls is h = omega (arith, h)

total_tally :
    (effs : List EffectiveFinding)
    → length effs
      ≡ tally critical effs + tally high effs + tally medium effs + tally low effs + tally info effs
total_tally [] = refl
total_tally (e ∷ effs) = split_tally e.effective_severity e _ _ _ _ _ _ (total_tally effs)

count_all-tally :
    (s : Severity) (n : ℕ) (effs : List EffectiveFinding) (counts : Dict ℕ)
    → lookup (severity_value s) counts ≡ some n
    → lookup (severity_value s) (count_all effs counts) ≡ some (n + tally s effs)
unfolding count_all
count_all-tally s n [] counts h = h ∙ ap some (omega arith)
count_all-tally s n (e ∷ effs) counts h =
    let j = severity_value e.effective_severity in
    let k = severity_value s in
    count_all-tally s (if j == k then n + 1 else n) effs (add_one j counts)
      (lookup-add_one j k n counts h)
    ∙ ap some (shift_tally (j == k) n _ e)

abbrev Tallied : Report → Type 0
Tallied out =
    ((s : Severity) → lookup (severity_value s) out.by_severity ≡ some (tally s out.findings))
    × (out.total
        ≡ tally critical out.findings
          + tally high out.findings
          + tally medium out.findings
          + tally low out.findings
          + tally info out.findings)

-- The JSON report: for every severity the number of the findings listed with it, and their sum in total.
pub report-tally :
    (db : Db) (scan_id : String) (out : Report)
    → report db scan_id ≡ ok out
    → ((s : Severity) → lookup (severity_value s) out.by_severity ≡ some (tally s out.findings))
      × (out.total
          ≡ tally critical out.findings
            + tally high out.findings
            + tally medium out.findings
            + tally low out.findings
            + tally info out.findings)
unfolding report
report-tally db scan_id out h =
    let (scan, _, e) = bind-ok (known_scan db scan_id) _ out h in
    let effs = list_findings db (of_scan scan_id none) in
    subst Tallied (ok-injective e) (
      λ s. count_all-tally s 0 effs no_counts (starts_at_zero s) ∙ ap some (omega arith),
      total_tally effs,
    )
