-- ===== src/Api/Routes/Findings/Restricted.antt =====
-- References to proofs of concept.
use omniscan.Prelude.{
  ◌&&◌, if◌then◌else◌, String, ◌≡◌, refl, Bool, true, false, not, none, some, Option, eqb, List, [],
  ◌∷◌, select, map, inl, inr, Bool-cases, Option-cases, arith, ap, ◌∙◌,
}
use mathlib.Core.Path.{ap₂}
use omniscan.Prelude.Dict.{has_key, insert, insert-insert, has_key-insert}
use omniscan.Python.Json.{Json, JsonDict, str}
use omniscan.Prelude.Sort.{sort, sort-map}
use omniscan.Core.Models.{Db, Finding}
use omniscan.Core.Security.{Principal, can_view_poc}
use omniscan.Api.Findings.{
  EffectiveFinding, Filter, row_before, reaches, mentions_query, selected, keep_rows, effective,
  effective_from, latest_triage, default_status, list_findings,
}
use omniscan.Api.Routes.Findings.{restricted, shown_extra, to_out, list_out}

-- The findings with other references in place of those they have.
unfoldable pub other_extra : Json → JsonDict → JsonDict
other_extra v extra = if has_key "poc_ref" extra then insert "poc_ref" v extra else extra

unfoldable pub other_ref : (Finding → Json) → Finding → Finding
unfolding other_extra
other_ref refs f = record f { extra = other_extra (refs f) f.extra }

unfoldable pub other_refs : (Finding → Json) → Db → Db
unfolding other_ref
other_refs refs db = record db { findings = map (other_ref refs) db.findings }

shown_extra-other_extra :
    (v : Json) (extra : JsonDict) → shown_extra true (other_extra v extra) ≡ shown_extra true extra
unfolding shown_extra other_extra
shown_extra-other_extra v extra = elim (Bool-cases (has_key "poc_ref" extra)) [
  | inl e ↦
      rw (e, has_key-insert "poc_ref" v extra) (insert-insert "poc_ref" v (str restricted) extra)
  | inr e ↦ rw (e, e) refl
]

map-select :
    {A B : Type 0} (f : A → B) (p : A → Bool) (q : B → Bool)
    → ((x : A) → q (f x) ≡ p x)
    → (xs : List A) → select q (map f xs) ≡ map f (select p xs)
map-select f p q same [] = refl
map-select f p q same (x ∷ xs) = ground (arith, same x, map-select f p q same xs)

-- The three tests of the loop over the rows, on two sides.
map-guards :
    (a b c d : Bool) (x y : EffectiveFinding) (xs ys : List EffectiveFinding)
    → d ≡ c
    → to_out true x ≡ to_out true y
    → map (to_out true) xs ≡ map (to_out true) ys
    → map (to_out true) (if a then xs else if b then xs else if d then x ∷ xs else xs)
      ≡ map (to_out true) (if a then ys else if b then ys else if c then y ∷ ys else ys)
map-guards true b c d x y xs ys s e h = h
map-guards false true c d x y xs ys s e h = h
map-guards false false true d x y xs ys s e h = rw s (ap₂ ◌∷◌ e h)
map-guards false false false d x y xs ys s e h = rw s h

module _ (refs : Finding → Json) (db : Db) where
  to_out-other_ref :
      (f : Finding)
      → to_out true (effective (other_refs refs db) (other_ref refs f))
        ≡ to_out true (effective db f)
  unfolding to_out effective effective_from other_refs other_ref latest_triage default_status
  to_out-other_ref f = elim (Option-cases (latest_triage db f.id)) [
    | inl e ↦ rw (e, shown_extra-other_extra (refs f) f.extra) refl
    | inr (r, e) ↦ rw (e, shown_extra-other_extra (refs f) f.extra) refl
  ]

  effective-other_ref :
      (f : Finding)
      → ((effective (other_refs refs db) (other_ref refs f)).effective_severity
          ≡ (effective db f).effective_severity)
  unfolding effective effective_from other_refs other_ref latest_triage
  effective-other_ref f = elim (Option-cases (latest_triage db f.id)) [
    | inl e ↦ rw e refl
    | inr (r, e) ↦ rw e refl
  ]

  mentions_query-other_ref :
      (q : Option String) (f : Finding) → mentions_query q (other_ref refs f) ≡ mentions_query q f
  unfolding other_ref
  mentions_query-other_ref none f = refl
  mentions_query-other_ref (some q) f = refl

  sorted_selected :
      (o : Filter)
      → sort row_before (select (selected o) (map (other_ref refs) db.findings))
        ≡ map (other_ref refs) (sort row_before (select (selected o) db.findings))
  unfolding other_ref row_before
  sorted_selected o =
      ap (sort row_before)
        (map-select (other_ref refs) (selected o) (selected o) (λ f. refl) db.findings)
      ∙ sort-map (other_ref refs) row_before row_before (λ f g. refl)
          (select (selected o) db.findings)

  keep_rows-other_ref :
      (o : Filter) (rows : List Finding)
      → map (to_out true) (keep_rows (other_refs refs db) o (map (other_ref refs) rows))
        ≡ map (to_out true) (keep_rows db o rows)
  unfolding keep_rows other_ref
  keep_rows-other_ref o [] = refl
  keep_rows-other_ref o (f ∷ rows) = rw (mentions_query-other_ref o.query f) (
      map-guards (o.chainable_only && eqb f.chainability_score 0) (not (mentions_query o.query f))
        (reaches o.min_severity (effective db f).effective_severity) _
        (effective (other_refs refs db) (other_ref refs f)) (effective db f)
        (keep_rows (other_refs refs db) o (map (other_ref refs) rows)) (keep_rows db o rows)
        (ap (reaches o.min_severity) (effective-other_ref f)) (to_out-other_ref f)
        (keep_rows-other_ref o rows))

  list_findings-other_refs :
      (o : Filter)
      → map (to_out true) (list_findings (other_refs refs db) o)
        ≡ map (to_out true) (list_findings db o)
  unfolding list_findings other_refs
  list_findings-other_refs o =
      ap (λ rows. map (to_out true) (keep_rows (other_refs refs db) o rows)) (sorted_selected o)
      ∙ keep_rows-other_ref o (sort row_before (select (selected o) db.findings))

-- To a principal who is no administrator, the list of the findings looks the same whatever the stored
-- references to proofs of concept are.
pub list_out-other_refs :
    (refs : Finding → Json) (db : Db) (principal : Principal) (o : Filter)
    → can_view_poc principal ≡ false
    → list_out (other_refs refs db) principal o ≡ list_out db principal o
unfolding list_out
list_out-other_refs refs db principal o h = rw h (list_findings-other_refs refs db o)
