-- ===== src/Agent/Reporter/Batches.antt =====
-- What the collector is sent.
use mathlib.Core.Path.{subst}
use omniscan.Prelude.{
  String, ◌+◌, suc, length-append, ℕ, leb, ◌<◌, ◌≤◌, ◌≡◌, refl, sym, ◌∙◌, ap, Bool, List, [], ◌∷◌,
  ◌++◌, length, All, arith, Bool-cases, inl, inr,
}
use omniscan.Agent.Reporter.{Event, Attempt, HttpReporter, http_reporter, post, flush, report}

-- What the application does with its reporter.
pub data Call : Type 0 where
  reported : Event → Call
  flushed : Call

abbrev pub run : (ℕ → Bool) → List Call → HttpReporter → HttpReporter
run net [] r = r
run net (reported e ∷ calls) r = run net calls (report net e r)
run net (flushed ∷ calls) r = run net calls (flush net r)

abbrev pub events_of : List Call → List Event
events_of [] = []
events_of (reported e ∷ calls) = e ∷ events_of calls
events_of (flushed ∷ calls) = events_of calls

-- The events of the attempts, delivered or dropped.
abbrev pub attempted : List Attempt → List Event
attempted [] = []
attempted (a ∷ sent) = a.events ++ attempted sent

-- Each attempt, from the n-th on, is marked as the network answered it.
abbrev pub Answered : (ℕ → Bool) → ℕ → List Attempt → Type 0
Answered net n [] = Unit
Answered net n (a ∷ sent) = (a.delivered ≡ net n) × Answered net (suc n) sent

-- Every event is in one attempt, which delivered or dropped it, or in the buffer, in the order of the
-- reports; the buffer is shorter than a batch, every attempt holds at least one event and at most a
-- batch, and is marked as the network answered it.
pub record Accounted (net : ℕ → Bool) (events : List Event) (r : HttpReporter) : Type 0 where
  pub in_order : attempted r.attempts ++ r.buf ≡ events
  pub short : length r.buf < r.batch
  pub filled : All (λ a. (1 ≤ length a.events) × (length a.events ≤ r.batch)) r.attempts
  pub answered : Answered net 0 r.attempts

append_nil : {A : Type 0} (xs : List A) → xs ++ [] ≡ xs
append_nil [] = refl
append_nil (x ∷ xs) = ap (λ ys. x ∷ ys) (append_nil xs)

append_assoc : {A : Type 0} (xs ys zs : List A) → (xs ++ ys) ++ zs ≡ xs ++ (ys ++ zs)
append_assoc [] ys zs = refl
append_assoc (x ∷ xs) ys zs = ap (λ ws. x ∷ ws) (append_assoc xs ys zs)

attempted-append :
    (sent : List Attempt) (a : Attempt) → attempted (sent ++ a ∷ []) ≡ attempted sent ++ a.events
attempted-append [] a = append_nil a.events
attempted-append (b ∷ sent) a =
    ap (λ es. b.events ++ es) (attempted-append sent a)
    ∙ sym (append_assoc b.events (attempted sent) a.events)

All-append_one :
    {A : Type 0} (P : A → Type 0) (xs : List A) (x : A) → All P xs → P x → All P (xs ++ x ∷ [])
All-append_one P [] x h p = (p, tt)
All-append_one P (y ∷ xs) x (q, h) p = (q, All-append_one P xs x h p)

Answered-append_one :
    (net : ℕ → Bool) (n : ℕ) (sent : List Attempt) (a : Attempt)
    → Answered net n sent
    → a.delivered ≡ net (n + length sent)
    → Answered net n (sent ++ a ∷ [])
Answered-append_one net n [] a h e = (e ∙ ap net (omega arith), tt)
Answered-append_one net n (b ∷ sent) a (q, h) e =
    (q, Answered-append_one net (suc n) sent a h (e ∙ ap net (omega arith)))

module _ (net : ℕ → Bool) where
  -- A buffer that is at most full.
  flush_full :
      (events buf : List Event) (r : HttpReporter)
      → attempted r.attempts ++ buf ≡ events
      → length buf ≤ r.batch
      → 1 ≤ r.batch
      → All (λ a. (1 ≤ length a.events) × (length a.events ≤ r.batch)) r.attempts
      → Answered net 0 r.attempts
      → Accounted net events (flush net (record r { buf = buf }))
  unfolding flush post
  flush_full events [] r h le pos all ans = record {
    in_order = h;
    short = pos;
    filled = all;
    answered = ans;
  }
  flush_full events (e ∷ buf) r h le pos all ans = record {
    in_order = append_nil _ ∙ attempted-append r.attempts _ ∙ h;
    short = pos;
    filled = All-append_one _ r.attempts _ all (omega arith, le);
    answered = Answered-append_one net 0 r.attempts _ ans (ap net (omega arith));
  }

  flush-Accounted :
      (events : List Event) (r : HttpReporter)
      → Accounted net events r
      → Accounted net events (flush net r)
  flush-Accounted events r d =
      flush_full events r.buf r d.in_order (omega (arith, d.short)) (omega (arith, d.short))
        d.filled d.answered

  report-Accounted :
      (events : List Event) (e : Event) (r : HttpReporter)
      → Accounted net events r
      → Accounted net (events ++ e ∷ []) (report net e r)
  unfolding report
  report-Accounted events e r d =
      let grown : attempted r.attempts ++ (r.buf ++ e ∷ []) ≡ events ++ e ∷ [] =
        sym (append_assoc (attempted r.attempts) r.buf (e ∷ []))
        ∙ ap (λ es. es ++ e ∷ []) d.in_order in
      let counted : length (r.buf ++ e ∷ []) ≡ length r.buf + 1 = length-append r.buf (e ∷ []) in
      elim (Bool-cases (leb r.batch (length (r.buf ++ e ∷ [])))) [
        | inl full ↦ rw full (
            flush_full (events ++ e ∷ []) (r.buf ++ e ∷ []) r grown
              (omega (arith, d.short, counted)) (omega (arith, d.short)) d.filled d.answered)
        | inr room ↦ rw room (record {
          in_order = grown;
          short = ground (arith, room);
          filled = d.filled;
          answered = d.answered;
        })
      ]

  run-Accounted_from :
      (calls : List Call) (events : List Event) (r : HttpReporter)
      → Accounted net events r
      → Accounted net (events ++ events_of calls) (run net calls r)
  run-Accounted_from [] events r d = subst (λ es. Accounted net es r) (sym (append_nil events)) d
  run-Accounted_from (reported e ∷ calls) events r d =
      subst (λ es. Accounted net es (run net calls (report net e r)))
        (append_assoc events (e ∷ []) (events_of calls))
        (run-Accounted_from calls (events ++ e ∷ []) (report net e r)
          (report-Accounted events e r d))
  run-Accounted_from (flushed ∷ calls) events r d =
      run-Accounted_from calls events (flush net r) (flush-Accounted events r d)

-- Whatever the application reports and flushes, in whatever order, and whichever posts fail: every
-- event is in exactly one attempt to post, which delivered it or dropped it, or still in the buffer of
-- a reporter with a batch of at least one event, in the order of the reports; fewer events are held
-- than a batch, no attempt is empty or larger than a batch, and each is marked as the network
-- answered it.
pub run-Accounted :
    (net : ℕ → Bool) (url session token : String) (batch : ℕ) (calls : List Call)
    → 1 ≤ batch
    → Accounted net (events_of calls) (run net calls (http_reporter url session token batch))
unfolding http_reporter
run-Accounted net url session token batch calls pos =
    run-Accounted_from net calls [] (http_reporter url session token batch)
      (record { in_order = refl; short = pos; filled = tt; answered = tt })
