-- ===== src/Tests/Normalize.antt =====
-- The theorems of normalize/ at concrete inputs.
use omniscan.Prelude.{String, ◌≡◌, refl, none, some, List, [], ◌∷◌, map}
use omniscan.Prelude.Table.{find_by}
use omniscan.Prelude.Dict.{lookup, insert}
use omniscan.Core.Enums.{sast, Severity, medium, high, severity_rank}
use omniscan.Normalize.Fingerprint.{fingerprint}
use omniscan.Normalize.Fingerprint.Laws.{
  SamePlace, result_at, file_only, file_and_name, fingerprint_stable, fingerprint_collision,
}
use omniscan.Normalize.Finding.{NormalizedFinding, absorb, add_sources, dedup}
use omniscan.Normalize.Finding.Dedup.{fp, merged, Merges, find_by-dedup, dedup-Merges}
use omniscan.Normalize.Finding.Distinct.{firsts, map-dedup}
use omniscan.Tests.Data.{runtime, result_with, location_at}

moved_place : SamePlace (location_at 3) (location_at 40)
moved_place = record {
  artifact = refl;
  logical = refl;
  signals = (refl, (refl, (refl, (refl, (refl, tt)))));
}

fingerprint_stable_example :
    fingerprint runtime "SAST" (result_with 3) ≡ fingerprint runtime "SAST" (result_with 40)
fingerprint_stable_example =
    fingerprint_stable runtime "SAST" (result_with 3) (result_with 40) (location_at 3)
      (location_at 40) [] [] refl refl refl moved_place

fingerprint_collision_example :
    fingerprint runtime "SAST" (result_at "sqli" (file_only "a|b"))
    ≡ fingerprint runtime "SAST" (result_at "sqli" (file_and_name "a" "b"))
fingerprint_collision_example =
    fingerprint_collision runtime "SAST" "sqli" "a" "b" (λ h. cc h) (λ h. cc h)

abbrev found_by : String → Severity → NormalizedFinding
found_by tool severity = record {
  fingerprint = "f";
  scan_class = sast;
  rule_id = "sqli";
  title = "SQL injection";
  message = "tainted query";
  severity = severity;
  location = [];
  sources = tool ∷ [];
  extra = [];
  chainability_score = 0;
}

abbrev reports : List NormalizedFinding
reports = found_by "demoscan" medium ∷ found_by "semgrep" high ∷ []

abbrev both : NormalizedFinding
both = record {
  fingerprint = "f";
  scan_class = sast;
  rule_id = "sqli";
  title = "SQL injection";
  message = "tainted query";
  severity = high;
  location = [];
  sources = "demoscan" ∷ "semgrep" ∷ [];
  extra = [];
  chainability_score = 0;
}

reported_once : find_by fp "f" (dedup reports) ≡ some both
unfolding find_by dedup lookup insert absorb severity_rank add_sources
reported_once = refl

dedup-Merges_example : Merges "f" both reports
dedup-Merges_example = dedup-Merges "f" both reports reported_once

find_by-dedup_example : find_by fp "f" (dedup reports) ≡ merged "f" none reports
find_by-dedup_example = find_by-dedup "f" reports

map-dedup_example : map fp (dedup reports) ≡ firsts [] (map fp reports)
map-dedup_example = map-dedup reports
