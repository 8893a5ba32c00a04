-- ===== src/Api/Iast/Collect/Repeated.antt =====
-- A batch of events that is sent again adds nothing.
use omniscan.Prelude.{
  ℕ, ◌+◌, String, ◌==◌, ◌≡◌, refl, sym, ◌∙◌, ap, true, false, Option, none, some,
}
use omniscan.Prelude.{
  List, [], ◌∷◌, ◌++◌, map, select, contains, contains-append, All, if◌then◌else◌, Bool-cases, inl,
  inr, arith, eq_refl,
}
use mathlib.Core.Path.{subst}
use omniscan.Prelude.Try.{ok, Try-cases}
use omniscan.Python.Json.{JsonDict}
use omniscan.Core.Models.{Finding, IastSession}
use omniscan.Core.World.{World, new_id}
use omniscan.Normalize.Runtime.{Runtime}
use omniscan.Normalize.Finding.{NormalizedFinding}
use omniscan.Api.Iast.Collect.{
  recorded, add_event, collect, record_new, normalized_events, ingest_for, ingest_events,
}

-- The fingerprints are among the texts.
abbrev Covered : List String → List NormalizedFinding → Type 0
Covered xs nfs = All (λ nf. contains xs nf.fingerprint ≡ true) nfs

collect_none :
    (scan_id project_id : String) (existing : List String) (nfs : List NormalizedFinding)
    (w : World)
    → Covered existing nfs
    → collect scan_id project_id existing nfs w ≡ (ok 0, w)
unfolding collect
collect_none scan_id project_id existing [] w c = refl
collect_none scan_id project_id existing (nf ∷ nfs) w (e, c) =
    rw (e, collect_none scan_id project_id existing nfs w c) refl

recorded-append :
    (k : String) (f : Finding) (fs : List Finding)
    → map (λ g. g.fingerprint) (select (λ g. g.scan_id == k) (fs ++ f ∷ [])) ≡ (
        if f.scan_id == k
        then map (λ g. g.fingerprint) (select (λ g. g.scan_id == k) fs) ++ f.fingerprint ∷ []
        else map (λ g. g.fingerprint) (select (λ g. g.scan_id == k) fs))
recorded-append k f [] = ground arith
recorded-append k f (g ∷ fs) = ground (arith, recorded-append k f fs)

recorded-add_event :
    (scan_id project_id : String) (nf : NormalizedFinding) (w : World)
    → recorded scan_id (add_event scan_id project_id nf w).1.db
      ≡ recorded scan_id w.db ++ nf.fingerprint ∷ []
unfolding recorded add_event new_id
recorded-add_event scan_id project_id nf w =
    recorded-append scan_id _ w.db.findings ∙ rw (eq_refl scan_id) refl

module _ (scan_id project_id : String) where
  collect_total :
      (existing : List String) (nfs : List NormalizedFinding) (w : World)
      → (n : ℕ) × ((collect scan_id project_id existing nfs w).0 ≡ ok n)
  unfolding collect add_event new_id
  collect_total existing [] w = (0, refl)
  collect_total existing (nf ∷ nfs) w = elim (Bool-cases (contains existing nf.fingerprint)) [
    | inl e ↦ let (n, h) = collect_total existing nfs w in (0 + n, rw (e, h) refl)
    | inr e ↦
        let (n, h) =
          collect_total (nf.fingerprint ∷ existing) nfs (add_event scan_id project_id nf w).1 in
        (1 + n, rw (e, h) refl)
  ]

  step_old :
      (existing : List String) (nf : NormalizedFinding) (nfs : List NormalizedFinding) (w : World)
      → contains existing nf.fingerprint ≡ true
      → (collect scan_id project_id existing (nf ∷ nfs) w).1
        ≡ (collect scan_id project_id existing nfs w).1
  unfolding collect
  step_old existing nf nfs w e = rw (e, (collect_total existing nfs w).1) refl

  step_new :
      (existing : List String) (nf : NormalizedFinding) (nfs : List NormalizedFinding) (w : World)
      → contains existing nf.fingerprint ≡ false
      → (collect scan_id project_id existing (nf ∷ nfs) w).1
        ≡ (collect scan_id project_id
            (nf.fingerprint ∷ existing)
            nfs
            (add_event scan_id project_id nf w).1).1
  unfolding collect add_event new_id
  step_new existing nf nfs w e =
      rw
        (e, (collect_total (nf.fingerprint ∷ existing) nfs (add_event scan_id project_id nf w).1).1)
        refl

  -- What was recorded stays recorded.
  collect_keeps :
      (existing : List String) (nfs : List NormalizedFinding) (w : World) (x : String)
      → contains (recorded scan_id w.db) x ≡ true
      → contains (recorded scan_id (collect scan_id project_id existing nfs w).1.db) x ≡ true
  unfolding collect
  collect_keeps existing [] w x h = h
  collect_keeps existing (nf ∷ nfs) w x h = elim (Bool-cases (contains existing nf.fingerprint)) [
    | inl e ↦ rw (step_old existing nf nfs w e) (collect_keeps existing nfs w x h)
    | inr e ↦ rw (step_new existing nf nfs w e) (
        collect_keeps (nf.fingerprint ∷ existing) nfs (add_event scan_id project_id nf w).1 x (
          ap (λ l. contains l x) (recorded-add_event scan_id project_id nf w)
          ∙ contains-append (recorded scan_id w.db) (nf.fingerprint ∷ []) x
          ∙ rw h refl))
  ]

  add_event-Covered :
      (existing : List String) (fp x : String) (nf : NormalizedFinding) (w : World)
      → nf.fingerprint ≡ fp
      → ((y : String) → contains existing y ≡ true → contains (recorded scan_id w.db) y ≡ true)
      → contains (fp ∷ existing) x ≡ true
      → contains (recorded scan_id (add_event scan_id project_id nf w).1.db) x ≡ true
  add_event-Covered existing fp x nf w own sub h =
      ap (λ l. contains l x) (recorded-add_event scan_id project_id nf w)
      ∙ contains-append (recorded scan_id w.db) (nf.fingerprint ∷ []) x
      ∙ ground (arith, h, sub x, own)

  collect-Covered :
      (existing : List String) (nfs : List NormalizedFinding) (w : World)
      → ((y : String) → contains existing y ≡ true → contains (recorded scan_id w.db) y ≡ true)
      → Covered (recorded scan_id (collect scan_id project_id existing nfs w).1.db) nfs
  collect-Covered existing [] w sub = tt
  collect-Covered existing (nf ∷ nfs) w sub = elim (Bool-cases (contains existing nf.fingerprint)) [
    | inl e ↦
        subst (λ v. Covered (recorded scan_id v.db) (nf ∷ nfs)) (sym (step_old existing nf nfs w e))
          (
            collect_keeps existing nfs w nf.fingerprint (sub nf.fingerprint e),
            collect-Covered existing nfs w sub,
          )
    | inr e ↦
        let more = λ (y : String) (h : contains (nf.fingerprint ∷ existing) y ≡ true).
          add_event-Covered existing nf.fingerprint y nf w refl sub h in
        let next = (add_event scan_id project_id nf w).1 in
        subst (λ v. Covered (recorded scan_id v.db) (nf ∷ nfs)) (sym (step_new existing nf nfs w e))
          (
            collect_keeps (nf.fingerprint ∷ existing) nfs next nf.fingerprint
                (more nf.fingerprint (ground (arith, eq_refl nf.fingerprint))),
            collect-Covered (nf.fingerprint ∷ existing) nfs next more,
          )
  ]

  record_new_twice :
      (nfs : List NormalizedFinding) (w : World)
      → let v = (record_new scan_id project_id nfs w).1 in
        record_new scan_id project_id nfs v ≡ (ok 0, v)
  unfolding record_new
  record_new_twice nfs w =
      let v = (collect scan_id project_id (recorded scan_id w.db) nfs w).1 in
      collect_none scan_id project_id (recorded scan_id v.db) nfs v
        (collect-Covered (recorded scan_id w.db) nfs w (λ y h. h))

ingest_twice :
    (rt : Runtime) (at : Option String) (project_id : String) (events : List JsonDict) (w : World)
    (n : ℕ)
    → (ingest_for rt at project_id events w).0 ≡ ok n
    → let v = (ingest_for rt at project_id events w).1 in
      ingest_for rt at project_id events v ≡ (ok 0, v)
unfolding ingest_for
ingest_twice rt none project_id events w n h = absurd (cc h)
ingest_twice rt (some scan_id) project_id events w n h =
    elim (Try-cases (normalized_events rt events)) [
      | inl (nfs, e) ↦ rw e (record_new_twice scan_id project_id nfs w)
      | inr (x, e) ↦ absurd (ground arith)
    ]

-- The collector is idempotent: a batch of events that it has taken once adds no finding and changes
-- nothing when the agent sends it again.
pub ingest_events_twice :
    (rt : Runtime) (s : IastSession) (events : List JsonDict) (w : World) (n : ℕ)
    → (ingest_events rt s events w).0 ≡ ok n
    → let v = (ingest_events rt s events w).1 in ingest_events rt s events v ≡ (ok 0, v)
unfolding ingest_events
ingest_events_twice rt s events w n h = ingest_twice rt s.scan_id s.project_id events w n h
