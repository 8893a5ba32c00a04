-- ===== src/Adapters/Rvd/Engine/Discipline.antt =====
-- What the engine promises of its output.
use omniscan.Prelude.{
  leb, inl, inr, ℕ, ◌≤◌, String, ◌≡◌, refl, ap, Bool, true, false, some, All, arith, Bool-cases,
  if◌then◌else◌,
}
use mathlib.Core.Path.{subst}
use omniscan.Prelude.Dict.{lookup}
use omniscan.Prelude.Try.{ok, bind-ok}
use omniscan.Python.Json.{
  Json, JsonDict, boolean, arr, obj, end, Items, num, json_truthy, get_or, as_dict, as_list,
}
use omniscan.Normalize.Sarif.{Result, SarifLog}
use omniscan.Adapters.Tools.Loops.{map_try-All}
use omniscan.Adapters.Tools.{Libraries, map_try, item_at, as_text}
use omniscan.Adapters.Rvd.Engine.{
  level_of, first_item, as_float, result_at, result_of, result_of_json, engine_log, parse,
}

-- The finding is embargoed, its level is the lowest unless it was verified, and it is an error only
-- where it was verified with a confidence of at least 800 thousandths.
pub record Disciplined (r : Result) : Type 0 where
  pub embargoed : lookup "embargoed" r.properties ≡ some (boolean true)
  pub unverified :
      (v : Json)
      → lookup "verified" r.properties ≡ some v
      → json_truthy v ≡ false
      → r.level ≡ "note"
  pub sure : (c : ℕ) → lookup "confidence" r.properties ≡ some (num c) → r.level ≡ "error" → 800 ≤ c

level_of-cases :
    (v : Bool) (c : ℕ) → (v ≡ false → level_of v c ≡ "note") × (level_of v c ≡ "error" → 800 ≤ c)
unfolding level_of
level_of-cases false c = (λ e. refl, λ e. absurd (cc e))
level_of-cases true c = (
  λ e. absurd (cc e),
  λ e. elim (Bool-cases (leb 800 c)) [
    | inl f ↦ ground (arith, f)
    | inr f ↦ absurd (cc (e, ap {B = String} (λ b. if b then "error" else "warning") f))
  ],
)

result_at-Disciplined :
    (item : JsonDict) (verified : Json) (c : ℕ) (rule title : String) (loc : JsonDict)
    → Disciplined (result_at item verified c rule title loc)
unfolding result_at lookup
result_at-Disciplined item verified c rule title loc = record {
  embargoed = refl;
  unverified = λ v e f. (level_of-cases (json_truthy verified) c).0 (cc (e, f));
  sure = λ d e f. ground (arith, (level_of-cases (json_truthy verified) c).1 f);
}

result_of-Disciplined :
    (lib : Libraries) (item : JsonDict) (r : Result) → result_of lib item ≡ ok r → Disciplined r
unfolding result_of
result_of-Disciplined lib item r h =
    let (c, _, h1) = bind-ok (as_float lib (get_or "confidence" (num 0) item)) _ r h in
    let (locs, _, h2) =
      bind-ok (as_list (get_or "locations" (arr (Items.cons (obj end) Items.nil)) item)) _ r h1 in
    let (loc, _, h3) = bind-ok (first_item locs) _ r h2 in
    let (rule, _, h4) = bind-ok (item_at "rule_id" item) _ r h3 in
    let (title, _, h5) = bind-ok (item_at "title" item) _ r h4 in
    let (rule_id, _, h6) = bind-ok (as_text rule) _ r h5 in
    let (text, _, h7) = bind-ok (as_text title) _ r h6 in
    let (place, _, h8) = bind-ok (as_dict loc) _ r h7 in
    let built : result_at item (get_or "verified" (boolean false) item) c rule_id text place ≡ r =
      cc h8 in
    subst Disciplined built (result_at-Disciplined item _ c rule_id text place)

-- Of the engine's report, when it is read at all, every result is embargoed; one that is not marked as
-- verified has the level "note"; and one at the level "error" has a confidence of at least 0.8.
pub parse-Disciplined :
    (lib : Libraries) (raw : String) (sarif : SarifLog)
    → parse lib raw ≡ ok sarif
    → All (λ run. All Disciplined run.results) sarif.runs
unfolding parse result_of_json
parse-Disciplined lib raw sarif h =
    let (report, _, h1) = bind-ok (lib.loads raw) _ sarif h in
    let (d, _, h2) = bind-ok (as_dict report) _ sarif h1 in
    let (items, _, h3) = bind-ok (as_list (get_or "results" (arr Items.nil) d)) _ sarif h2 in
    let (results, read, h4) = bind-ok (map_try (result_of_json lib) items) _ sarif h3 in
    let built : engine_log d results ≡ sarif = cc h4 in
    let each : (item : Json) (r : Result) → result_of_json lib item ≡ ok r → Disciplined r =
      λ item r e.
        let (entry, _, e1) = bind-ok (as_dict item) _ r e in result_of-Disciplined lib entry r e1 in
    subst (λ s. All (λ run. All Disciplined run.results) s.runs) built
      (map_try-All (result_of_json lib) Disciplined each items results read, tt)
