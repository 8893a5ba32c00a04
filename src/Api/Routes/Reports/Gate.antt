-- ===== src/Api/Routes/Reports/Gate.antt =====
-- What the gate decides.
use omniscan.Prelude.{
  String, ◌==◌, ◌≡◌, refl, sym, ◌∙◌, ap, Bool, true, false, not, ◌&&◌, some, List, [], ◌∷◌, any,
  map, select, contains, is_nil, arith, Option-cases, inl, inr,
}
use omniscan.Prelude.Sort.{sort, any-sort}
use omniscan.Prelude.Try.{ok, bind-ok}
use omniscan.Core.Enums.{Severity, high, critical, medium, low, info, severity_rank}
use omniscan.Core.Models.{Db, Finding}
use omniscan.Api.Findings.{
  EffectiveFinding, effective, effective_from, latest_triage, reaches, selected, row_before,
  keep_rows, list_findings,
}
use omniscan.Api.Routes.Reports.{GateOut, of_scan, is_blocking, known_scan, gate}

is_serious : Severity → Bool
is_serious critical = true
is_serious high = true
is_serious _ = false

-- A finding of the scan that is high or critical and neither fixed, accepted nor a false positive.
unfoldable pub blocks : Db → String → Finding → Bool
unfolding is_serious
blocks db scan_id f =
    f.scan_id == scan_id
    && is_serious (effective db f).effective_severity
    && is_blocking (effective db f)

any-select :
    {A : Type 0} (p q : A → Bool) (xs : List A) → any p (select q xs) ≡ any (λ x. q x && p x) xs
any-select p q [] = refl
any-select p q (x ∷ xs) = ground (arith, any-select p q xs)

any-map :
    {A B : Type 0} (p : B → Bool) (f : A → B) (xs : List A)
    → any p (map f xs) ≡ any (λ x. p (f x)) xs
any-map p f [] = refl
any-map p f (x ∷ xs) = rw (any-map p f xs) refl

is_nil-any : {A : Type 0} (xs : List A) → is_nil xs ≡ not (any (λ x. true) xs)
is_nil-any [] = refl
is_nil-any (x ∷ xs) = refl

reaches_high : (s : Severity) → reaches (some high) s ≡ is_serious s
unfolding severity_rank is_serious
reaches_high critical = refl
reaches_high high = refl
reaches_high medium = refl
reaches_high low = refl
reaches_high info = refl

any-ext :
    {A : Type 0} (p q : A → Bool) → ((x : A) → p x ≡ q x) → (xs : List A) → any p xs ≡ any q xs
any-ext p q same [] = refl
any-ext p q same (x ∷ xs) = rw (same x, any-ext p q same xs) refl

module _ (db : Db) (scan_id : String) (p : EffectiveFinding → Bool) where
  any-keep_rows :
      (rows : List Finding)
      → any p (keep_rows db (of_scan scan_id (some high)) rows)
        ≡ any (λ f. is_serious (effective db f).effective_severity && p (effective db f)) rows
  unfolding keep_rows
  any-keep_rows [] = refl
  any-keep_rows (f ∷ rows) =
      ground (arith, reaches_high (effective db f).effective_severity, any-keep_rows rows)

  any-list_findings :
      (scan_id == "") ≡ false
      → any p (list_findings db (of_scan scan_id (some high)))
        ≡ any
            (λ f.
              f.scan_id == scan_id
              && is_serious (effective db f).effective_severity
              && p (effective db f))
            db.findings
  unfolding list_findings
  any-list_findings named =
      let o = of_scan scan_id (some high) in
      let q : Finding → Bool =
        λ f. is_serious (effective db f).effective_severity && p (effective db f) in
      any-keep_rows (sort row_before (select (selected o) db.findings))
      ∙ any-sort row_before q (select (selected o) db.findings)
      ∙ any-select q (selected o) db.findings
      ∙ any-ext _ _ (λ f. ground (arith, named)) db.findings

module _ (db : Db) (scan_id : String) (p : EffectiveFinding → Bool) where
  any-blocking :
      (scan_id == "") ≡ false
      → any p (select is_blocking (list_findings db (of_scan scan_id (some high))))
        ≡ any (λ f. blocks db scan_id f && p (effective db f)) db.findings
  unfolding blocks
  any-blocking named =
      any-select p is_blocking (list_findings db (of_scan scan_id (some high)))
      ∙ any-list_findings db scan_id (λ e. is_blocking e && p e) named
      ∙ any-ext _ _ (λ f. ground arith) db.findings

effective-finding : (db : Db) (f : Finding) → (effective db f).finding ≡ f
unfolding effective effective_from
effective-finding db f = elim (Option-cases (latest_triage db f.id)) [
  | inl e ↦ rw e refl
  | inr (r, e) ↦ rw e refl
]

-- The gate of a scan passes exactly when none of the scan's findings that is now high or critical is
-- open, confirmed or embargoed, and it names exactly the findings that are.
pub gate-blocks :
    (db : Db) (scan_id policy : String) (out : GateOut)
    → (scan_id == "") ≡ false
    → gate db scan_id policy ≡ ok out
    → (out.passed ≡ not (any (blocks db scan_id) db.findings))
      × ((id : String)
          → contains out.blocking_findings id
            ≡ any (λ f. f.id == id && blocks db scan_id f) db.findings)
unfolding gate blocks
gate-blocks db scan_id policy out named h =
    let (scan, _, e) = bind-ok (known_scan db scan_id) _ out h in
    let blocking = select is_blocking (list_findings db (of_scan scan_id (some high))) in
    let passed : is_nil blocking ≡ out.passed = cc e in
    let named_ids : map (λ e. e.finding.id) blocking ≡ out.blocking_findings = cc e in
    (
      sym passed
          ∙ is_nil-any blocking
          ∙ ap not (
              any-blocking db scan_id (λ e. true) named
              ∙ any-ext _ _ (λ f. ground arith) db.findings),
      λ id.
          ap (λ ids. contains ids id) (sym named_ids)
          ∙ any-map (λ x. x == id) (λ e. e.finding.id) blocking
          ∙ any-blocking db scan_id (λ e. e.finding.id == id) named
          ∙ any-ext _ _ (λ f. ground (arith, effective-finding db f)) db.findings,
    )
