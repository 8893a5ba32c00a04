-- ===== src/Adapters/Sast/Demoscan/Roundtrip.antt =====
-- What the built-in scanner reports is what its parser reads.
use omniscan.Prelude.{
  ℕ, ◌*◌, String, ◌<>◌, ◌==◌, ◌≡◌, refl, sym, none, some, List, [], ◌∷◌, map, if◌then◌else◌,
}
use omniscan.Prelude.Try.{ok}
use omniscan.Prelude.Dict.{lookup}
use omniscan.Python.Json.{num, str, dict_of, list_of, as_dict, as_list, get_or}
use omniscan.Normalize.Fingerprint.{format}
use omniscan.Normalize.Sarif.{Result, ReportingDescriptor}
use omniscan.Adapters.Base.{ScanRequest}
use omniscan.Adapters.Tools.{
  Libraries, item_at, as_text, as_line, map_try, one_run, file_location, distinct_rules,
  workspace_or_dot,
}
use omniscan.Adapters.Sast.Demoscan.{
  Walker, Hit, rules, title_of, json_of_hit, json_of_hits, report_of, scan_entries, run, result_of,
  result_of_json, parse,
}

-- The SARIF result and the rule of a match, read off the match itself.
abbrev pub sarif_of_hit : Hit → Result
sarif_of_hit h = record {
  rule_id = h.rule_id;
  level = if h.severity == "high" then "error" else "warning";
  message = h.title <> ": " <> h.snippet;
  locations = file_location h.file (some h.line) ∷ [];
  properties = ("severity", str h.severity) ∷ [];
}

abbrev pub rule_of_hit : Hit → ReportingDescriptor
rule_of_hit h = record {
  id = h.rule_id;
  name = title_of rules h.rule_id;
  short_description = some h.title;
  full_description = none;
  default_configuration = [];
  properties = [];
}

abbrev pair_of_hit : Hit → ReportingDescriptor × Result
pair_of_hit h = (rule_of_hit h, sarif_of_hit h)

module _ (lib : Libraries) (ints : (n : ℕ) → lib.to_int (num (1000 * n)) ≡ ok n) where
  read_hit : (h : Hit) → result_of_json lib (json_of_hit h) ≡ ok (pair_of_hit h)
  unfolding result_of_json result_of as_dict dict_of item_at lookup as_text as_line get_or format
  read_hit h = rw (ints h.line) refl

  read_hits :
      (hs : List Hit)
      → map_try (result_of_json lib) (list_of (json_of_hits hs)) ≡ ok (map pair_of_hit hs)
  unfolding map_try list_of json_of_hits
  read_hits [] = refl
  read_hits (h ∷ hs) = rw (read_hit h, read_hits hs) refl

map-map :
    {A B C : Type 0} (f : A → B) (g : B → C) (xs : List A)
    → map g (map f xs) ≡ map (λ x. g (f x)) xs
map-map f g [] = refl
map-map f g (x ∷ xs) = rw (map-map f g xs) refl

-- What the built-in scanner writes, its parser reads back: one result for each match, in their order,
-- with the rule, the file and the line of the match and the level of its severity; if `loads` reads
-- what `dumps` has written of the report, and a whole number is taken for an integer.
pub parse-run :
    (lib : Libraries) (walker : Walker) (request : ScanRequest) (raw : String)
    → let hits = scan_entries walker (walker.walk (workspace_or_dot request.workspace_path)) in
      ((n : ℕ) → lib.to_int (num (1000 * n)) ≡ ok n)
      → lib.loads (lib.dumps (report_of hits)) ≡ ok (report_of hits)
      → run lib walker request ≡ ok raw
      → parse lib raw
        ≡ ok (one_run "demoscan" (distinct_rules (map rule_of_hit hits)) (map sarif_of_hit hits))
unfolding run parse report_of as_dict dict_of as_list get_or lookup
parse-run lib walker request raw ints back ran =
    let hits = scan_entries walker (walker.walk (workspace_or_dot request.workspace_path)) in
    let written : lib.dumps (report_of hits) ≡ raw = cc ran in
    rw
      (
        sym written,
        back,
        read_hits lib ints hits,
        map-map pair_of_hit (λ x. x.0) hits,
        map-map pair_of_hit (λ x. x.1) hits,
      )
      refl
