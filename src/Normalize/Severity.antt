-- ===== src/Normalize/Severity.antt =====
-- normalize/severity.py: tool scales become `Severity`.
use omniscan.Prelude.{ℕ, String, true, false, Option, none, some, ltb, leb}
use omniscan.Prelude.{[], ◌∷◌, if◌then◌else◌}
use omniscan.Prelude.Text.{lower, strip}
use omniscan.Prelude.Dict.{Dict, lookup}
use omniscan.Python.Json.{Json, JsonDict, num, boolean, str}
use omniscan.Core.Enums.{Severity, critical, high, medium, low, info}

-- `_SARIF_LEVEL`
abbrev pub sarif_level : Dict Severity
sarif_level = ("error", high) ∷ ("warning", medium) ∷ ("note", low) ∷ ("none", info) ∷ []

-- `_TEXTUAL`
abbrev pub textual : Dict Severity
textual =
    ("critical", critical)
    ∷ ("blocker", critical)
    ∷ ("high", high)
    ∷ ("error", high)
    ∷ ("medium", medium)
    ∷ ("moderate", medium)
    ∷ ("warning", medium)
    ∷ ("low", low)
    ∷ ("minor", low)
    ∷ ("info", info)
    ∷ ("informational", info)
    ∷ ("note", info)
    ∷ []

unfoldable pub from_sarif_level : String → Severity
from_sarif_level level = elim (lookup (lower level) sarif_level) [ none ↦ medium | some s ↦ s ]

unfoldable pub from_text : String → Option Severity
from_text value = lookup (lower (strip value)) textual

-- A score in thousandths.
unfoldable pub from_cvss : ℕ → Severity
from_cvss score =
    if leb 9000 score
    then critical
    else if leb 7000 score
    then high
    else if leb 4000 score
    then medium
    else if ltb 0 score
    then low
    else info

-- `float(value)`, where `none` is the `TypeError` or `ValueError`; `float_text` reads a text.
unfoldable pub to_float : (String → Option ℕ) → Json → Option ℕ
to_float float_text (num n) = some n
to_float float_text (boolean true) = some 1000
to_float float_text (boolean false) = some 0
to_float float_text (str s) = float_text s
to_float float_text _ = none

-- The textual severity, if there is one that `_TEXTUAL` knows.
textual_severity : Option Json → Option Severity
textual_severity (some (str s)) = from_text s
textual_severity _ = none

cvss_severity : (String → Option ℕ) → Option Json → Option Severity
cvss_severity float_text none = none
cvss_severity float_text (some value) = elim (to_float float_text value) [
  | none ↦ none
  | some score ↦ some (from_cvss score)
]

unfoldable pub resolve : (String → Option ℕ) → String → JsonDict → Severity
unfolding textual_severity cvss_severity
resolve float_text level properties = elim (cvss_severity float_text (lookup "cvss" properties)) [
  | some s ↦ s
  | none ↦ elim (textual_severity (lookup "severity" properties)) [
    | some s ↦ s
    | none ↦ from_sarif_level level
  ]
]
