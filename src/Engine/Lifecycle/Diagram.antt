-- ===== src/Engine/Lifecycle/Diagram.antt =====
-- The diagrams of lifecycle.py's documentation and SKILLS.md as relations, the transition tables against
-- them, and the paths that the table of scans allows.
use omniscan.Prelude.{
  ◌≤◌, ◌<◌, ◌≡◌, ◌≢◌, refl, sym, ap, ◌∙◌, ◌↔◌, ◌⊎◌, inl, inr, List, [], ◌∷◌, length, arith,
}
use omniscan.Prelude.Try.{ok}
use omniscan.Core.Enums.{ScanStatus, JobStatus}
use omniscan.Engine.Lifecycle.{assert_scan_transition, assert_job_transition}

-- As drawn: queued -> planning -> running -> normalizing -> completed | failed | cancelled
pub data DrawnScan : ScanStatus → ScanStatus → Type 0 where
  plan : DrawnScan ScanStatus.queued ScanStatus.planning
  run : DrawnScan ScanStatus.planning ScanStatus.running
  normalize : DrawnScan ScanStatus.running ScanStatus.normalizing
  complete : DrawnScan ScanStatus.normalizing ScanStatus.completed
  fail : DrawnScan ScanStatus.normalizing ScanStatus.failed
  cancel : DrawnScan ScanStatus.normalizing ScanStatus.cancelled

-- The statuses before normalizing.
pub data LiveScan : ScanStatus → Type 0 where
  queued : LiveScan ScanStatus.queued
  planning : LiveScan ScanStatus.planning
  running : LiveScan ScanStatus.running

-- An end before normalizing, which the diagram does not draw.
pub data EarlyScan : ScanStatus → ScanStatus → Type 0 where
  fail : {s : ScanStatus} → LiveScan s → EarlyScan s ScanStatus.failed
  cancel : {s : ScanStatus} → LiveScan s → EarlyScan s ScanStatus.cancelled

scan_accepted :
    (s t : ScanStatus)
    → assert_scan_transition s t ≡ ok tt
    → (DrawnScan s t × (t ≢ ScanStatus.cancelled)) ⊎ EarlyScan s t
unfolding assert_scan_transition
scan_accepted ScanStatus.queued ScanStatus.planning h = inl (DrawnScan.plan, λ e. cc e)
scan_accepted ScanStatus.planning ScanStatus.running h = inl (DrawnScan.run, λ e. cc e)
scan_accepted ScanStatus.running ScanStatus.normalizing h = inl (DrawnScan.normalize, λ e. cc e)
scan_accepted ScanStatus.normalizing ScanStatus.completed h = inl (DrawnScan.complete, λ e. cc e)
scan_accepted ScanStatus.queued ScanStatus.failed h = inr (EarlyScan.fail LiveScan.queued)
scan_accepted ScanStatus.planning ScanStatus.failed h = inr (EarlyScan.fail LiveScan.planning)
scan_accepted ScanStatus.running ScanStatus.failed h = inr (EarlyScan.fail LiveScan.running)
scan_accepted ScanStatus.normalizing ScanStatus.failed h = inl (DrawnScan.fail, λ e. cc e)
scan_accepted ScanStatus.queued ScanStatus.cancelled h = inr (EarlyScan.cancel LiveScan.queued)
scan_accepted ScanStatus.planning ScanStatus.cancelled h = inr (EarlyScan.cancel LiveScan.planning)
scan_accepted ScanStatus.running ScanStatus.cancelled h = inr (EarlyScan.cancel LiveScan.running)
scan_accepted s t h = cc

drawn_scan :
    {s t : ScanStatus}
    → DrawnScan s t
    → t ≢ ScanStatus.cancelled
    → assert_scan_transition s t ≡ ok tt
unfolding assert_scan_transition
drawn_scan DrawnScan.plan n = refl
drawn_scan DrawnScan.run n = refl
drawn_scan DrawnScan.normalize n = refl
drawn_scan DrawnScan.complete n = refl
drawn_scan DrawnScan.fail n = refl
drawn_scan DrawnScan.cancel n = absurd (n refl)

early_scan : {s t : ScanStatus} → EarlyScan s t → assert_scan_transition s t ≡ ok tt
unfolding assert_scan_transition
early_scan (EarlyScan.fail LiveScan.queued) = refl
early_scan (EarlyScan.fail LiveScan.planning) = refl
early_scan (EarlyScan.fail LiveScan.running) = refl
early_scan (EarlyScan.cancel LiveScan.queued) = refl
early_scan (EarlyScan.cancel LiveScan.planning) = refl
early_scan (EarlyScan.cancel LiveScan.running) = refl

-- `assert_scan_transition` accepts exactly the drawn edges except normalizing -> cancelled, which it
-- refuses, and besides them the edges that the diagram does not draw from a status before normalizing
-- to failed or cancelled.
pub assert_scan_transition_iff :
    (s t : ScanStatus)
    → (assert_scan_transition s t ≡ ok tt)
      ↔ (DrawnScan s t × (t ≢ ScanStatus.cancelled) ⊎ EarlyScan s t)
assert_scan_transition_iff s t =
    (scan_accepted s t, λ d. elim d [ inl (e, n) ↦ drawn_scan e n | inr e ↦ early_scan e ])

-- As drawn for jobs: queued -> running -> normalizing -> completed | failed | cancelled
pub data DrawnJob : JobStatus → JobStatus → Type 0 where
  run : DrawnJob JobStatus.queued JobStatus.running
  normalize : DrawnJob JobStatus.running JobStatus.normalizing
  complete : DrawnJob JobStatus.normalizing JobStatus.completed
  fail : DrawnJob JobStatus.normalizing JobStatus.failed
  cancel : DrawnJob JobStatus.normalizing JobStatus.cancelled

pub data LiveJob : JobStatus → Type 0 where
  queued : LiveJob JobStatus.queued
  running : LiveJob JobStatus.running

pub data EarlyJob : JobStatus → JobStatus → Type 0 where
  fail : {s : JobStatus} → LiveJob s → EarlyJob s JobStatus.failed
  cancel : {s : JobStatus} → LiveJob s → EarlyJob s JobStatus.cancelled

job_accepted :
    (s t : JobStatus)
    → assert_job_transition s t ≡ ok tt
    → (DrawnJob s t × (t ≢ JobStatus.cancelled)) ⊎ EarlyJob s t
unfolding assert_job_transition
job_accepted JobStatus.queued JobStatus.running h = inl (DrawnJob.run, λ e. cc e)
job_accepted JobStatus.running JobStatus.normalizing h = inl (DrawnJob.normalize, λ e. cc e)
job_accepted JobStatus.normalizing JobStatus.completed h = inl (DrawnJob.complete, λ e. cc e)
job_accepted JobStatus.queued JobStatus.failed h = inr (EarlyJob.fail LiveJob.queued)
job_accepted JobStatus.running JobStatus.failed h = inr (EarlyJob.fail LiveJob.running)
job_accepted JobStatus.normalizing JobStatus.failed h = inl (DrawnJob.fail, λ e. cc e)
job_accepted JobStatus.queued JobStatus.cancelled h = inr (EarlyJob.cancel LiveJob.queued)
job_accepted JobStatus.running JobStatus.cancelled h = inr (EarlyJob.cancel LiveJob.running)
job_accepted s t h = cc

drawn_job :
    {s t : JobStatus} → DrawnJob s t → t ≢ JobStatus.cancelled → assert_job_transition s t ≡ ok tt
unfolding assert_job_transition
drawn_job DrawnJob.run n = refl
drawn_job DrawnJob.normalize n = refl
drawn_job DrawnJob.complete n = refl
drawn_job DrawnJob.fail n = refl
drawn_job DrawnJob.cancel n = absurd (n refl)

early_job : {s t : JobStatus} → EarlyJob s t → assert_job_transition s t ≡ ok tt
unfolding assert_job_transition
early_job (EarlyJob.fail LiveJob.queued) = refl
early_job (EarlyJob.fail LiveJob.running) = refl
early_job (EarlyJob.cancel LiveJob.queued) = refl
early_job (EarlyJob.cancel LiveJob.running) = refl

-- `assert_job_transition` accepts exactly the drawn edges except normalizing -> cancelled, which it
-- refuses, and besides them the edges that the diagram does not draw from a status before normalizing
-- to failed or cancelled.
pub assert_job_transition_iff :
    (s t : JobStatus)
    → (assert_job_transition s t ≡ ok tt)
      ↔ (DrawnJob s t × (t ≢ JobStatus.cancelled) ⊎ EarlyJob s t)
assert_job_transition_iff s t =
    (job_accepted s t, λ d. elim d [ inl (e, n) ↦ drawn_job e n | inr e ↦ early_job e ])

-- Each status after the first is accepted as the successor of the one before it.
abbrev pub Accepted : ScanStatus → List ScanStatus → Type 0
Accepted s [] = Unit
Accepted s (t ∷ ts) = (assert_scan_transition s t ≡ ok tt) × Accepted t ts

abbrev pub last_status : ScanStatus → List ScanStatus → ScanStatus
last_status s [] = s
last_status s (t ∷ ts) = last_status t ts

-- The only way from a status to `completed`.
abbrev route : ScanStatus → List ScanStatus
route ScanStatus.queued =
    ScanStatus.planning ∷ ScanStatus.running ∷ ScanStatus.normalizing ∷ ScanStatus.completed ∷ []
route ScanStatus.planning = ScanStatus.running ∷ ScanStatus.normalizing ∷ ScanStatus.completed ∷ []
route ScanStatus.running = ScanStatus.normalizing ∷ ScanStatus.completed ∷ []
route ScanStatus.normalizing = ScanStatus.completed ∷ []
route _ = []

-- Along an accepted edge what is left of the route gets shorter.
accepted-route :
    (s t : ScanStatus) → assert_scan_transition s t ≡ ok tt → length (route t) < length (route s)
accepted-route s t a = elim (scan_accepted s t a) [
  | inl (e, n) ↦ drawn-route e
  | inr e ↦ early-route e
]
  where
    drawn-route : {s t : ScanStatus} → DrawnScan s t → length (route t) < length (route s)
    drawn-route DrawnScan.plan = omega arith
    drawn-route DrawnScan.run = omega arith
    drawn-route DrawnScan.normalize = omega arith
    drawn-route DrawnScan.complete = omega arith
    drawn-route DrawnScan.fail = omega arith
    drawn-route DrawnScan.cancel = omega arith

    early-route : {s t : ScanStatus} → EarlyScan s t → length (route t) < length (route s)
    early-route (EarlyScan.fail LiveScan.queued) = omega arith
    early-route (EarlyScan.fail LiveScan.planning) = omega arith
    early-route (EarlyScan.fail LiveScan.running) = omega arith
    early-route (EarlyScan.cancel LiveScan.queued) = omega arith
    early-route (EarlyScan.cancel LiveScan.planning) = omega arith
    early-route (EarlyScan.cancel LiveScan.running) = omega arith

length_path : (s : ScanStatus) (ts : List ScanStatus) → Accepted s ts → length ts ≤ length (route s)
length_path s [] h = omega arith
length_path s (t ∷ ts) (a, h) = omega (arith, accepted-route s t a, length_path t ts h)

-- Nothing is accepted after a failed or a cancelled scan.
failed_end :
    (ts : List ScanStatus)
    → Accepted ScanStatus.failed ts
    → last_status ScanStatus.failed ts ≢ ScanStatus.completed
unfolding assert_scan_transition
failed_end [] h e = cc e
failed_end (t ∷ ts) (a, h) e = cc a

cancelled_end :
    (ts : List ScanStatus)
    → Accepted ScanStatus.cancelled ts
    → last_status ScanStatus.cancelled ts ≢ ScanStatus.completed
unfolding assert_scan_transition
cancelled_end [] h e = cc e
cancelled_end (t ∷ ts) (a, h) e = cc a

-- An edge on the way to `completed` is one of the route.
route_edge :
    (s t : ScanStatus) (ts : List ScanStatus)
    → (DrawnScan s t × (t ≢ ScanStatus.cancelled)) ⊎ EarlyScan s t
    → Accepted t ts
    → last_status t ts ≡ ScanStatus.completed
    → route s ≡ t ∷ route t
route_edge s t ts d h e = elim d [ inl (x, n) ↦ drawn x n ts h e | inr x ↦ early x ts h e ]
  where
    drawn :
        {s t : ScanStatus}
        → DrawnScan s t
        → t ≢ ScanStatus.cancelled
        → (ts : List ScanStatus) → Accepted t ts
        → last_status t ts ≡ ScanStatus.completed
        → route s ≡ t ∷ route t
    drawn DrawnScan.plan n ts h e = refl
    drawn DrawnScan.run n ts h e = refl
    drawn DrawnScan.normalize n ts h e = refl
    drawn DrawnScan.complete n ts h e = refl
    drawn DrawnScan.fail n ts h e = absurd (failed_end ts h e)
    drawn DrawnScan.cancel n ts h e = absurd (n refl)

    early :
        {s t : ScanStatus}
        → EarlyScan s t
        → (ts : List ScanStatus) → Accepted t ts
        → last_status t ts ≡ ScanStatus.completed
        → route s ≡ t ∷ route t
    early (EarlyScan.fail l) ts h e = absurd (failed_end ts h e)
    early (EarlyScan.cancel l) ts h e = absurd (cancelled_end ts h e)

to_completed :
    (s : ScanStatus) (ts : List ScanStatus)
    → Accepted s ts
    → last_status s ts ≡ ScanStatus.completed
    → ts ≡ route s
to_completed s [] h e = rw e
to_completed s (t ∷ ts) (a, h) e =
    ap (λ us. t ∷ us) (to_completed t ts h e) ∙ sym (route_edge s t ts (scan_accepted s t a) h e)

-- Any sequence of transitions from queued that `assert_scan_transition` accepts one after the other
-- has at most four, and if it ends in completed it is planning, running, normalizing, completed.
pub queued_path :
    (ts : List ScanStatus)
    → Accepted ScanStatus.queued ts
    → (length ts ≤ 4)
      × (last_status ScanStatus.queued ts ≡ ScanStatus.completed
          → ts ≡ (
              ScanStatus.planning ∷ ScanStatus.running ∷ ScanStatus.normalizing
              ∷ ScanStatus.completed ∷ []))
queued_path ts h = (length_path ScanStatus.queued ts h, to_completed ScanStatus.queued ts h)
