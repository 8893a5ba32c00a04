-- ===== src/Api/Iast/Auth.antt =====
-- Whom the collector admits.
use omniscan.Prelude.{◌≤◌, String, ◌≡◌, refl, sym, ap, ◌∙◌, true, false, ◌&&◌, Option, none, some}
use omniscan.Prelude.{ltb, Bool-cases, Option-cases, inl, inr, arith, eq_iff}
use mathlib.Core.Path.{subst}
use omniscan.Prelude.Table.{find_by}
use omniscan.Prelude.Try.{ok}
use omniscan.Core.Enums.{IastSessionStatus}
use omniscan.Core.Models.{IastSession}
use omniscan.Core.World.{World}
use omniscan.Api.Iast.{
  session_key, is_active, reflect_expiry, get_session, token_text, check_token,
  authenticate_collector,
}

-- The session may take events with the token at the time.
pub record Admitted (hash : String → String) (session_id : String) (token : Option String)
    (w : World) (s : IastSession) : Type 0 where
  pub row : find_by session_key session_id w.db.sessions ≡ some s
  pub active : s.status ≡ IastSessionStatus.active
  pub unexpired : w.now ≤ s.expires_at
  pub token_fits : s.collector_token_hash ≡ hash (token_text token)

checked :
    (hash : String → String) (session_id : String) (token : Option String) (s t : IastSession)
    → check_token hash session_id token (some t) ≡ ok s
    → (t ≡ s) × (is_active t.status ≡ true) × (t.collector_token_hash ≡ hash (token_text token))
unfolding check_token
checked hash session_id token s t h = (
  ground arith,
  ground arith,
  (eq_iff t.collector_token_hash (hash (token_text token))).0 (ground arith),
)

active_lem : (st : IastSessionStatus) → is_active st ≡ true → st ≡ IastSessionStatus.active
active_lem IastSessionStatus.active h = refl
active_lem IastSessionStatus.finalized h = cc h
active_lem IastSessionStatus.expired h = cc h

seen_late :
    (hash : String → String) (session_id : String) (token : Option String) (w : World)
    (t : IastSession)
    → find_by session_key session_id w.db.sessions ≡ some t
    → (is_active t.status && ltb t.expires_at w.now) ≡ true
    → (authenticate_collector hash session_id token w).0
      ≡ check_token hash session_id token (some (record t { status = IastSessionStatus.expired }))
unfolding authenticate_collector get_session reflect_expiry
seen_late hash session_id token w t found e = rw (found, e) refl

seen_in_time :
    (hash : String → String) (session_id : String) (token : Option String) (w : World)
    (t : IastSession)
    → find_by session_key session_id w.db.sessions ≡ some t
    → (is_active t.status && ltb t.expires_at w.now) ≡ false
    → (authenticate_collector hash session_id token w).0
      ≡ check_token hash session_id token (some t)
unfolding authenticate_collector get_session reflect_expiry
seen_in_time hash session_id token w t found e = rw (found, e) refl

refuses_expired :
    (hash : String → String) (session_id : String) (token : Option String) (s t : IastSession)
    → ¬ (
        check_token hash session_id token (some (record t { status = IastSessionStatus.expired }))
        ≡ ok s)
unfolding check_token
refuses_expired hash session_id token s t h = cc h

found-Admitted :
    (hash : String → String) (session_id : String) (token : Option String) (w : World)
    (s t : IastSession)
    → find_by session_key session_id w.db.sessions ≡ some t
    → (authenticate_collector hash session_id token w).0 ≡ ok s
    → Admitted hash session_id token w s
found-Admitted hash session_id token w s t found h =
    elim (Bool-cases (is_active t.status && ltb t.expires_at w.now)) [
      | inl e ↦ absurd (
          refuses_expired hash session_id token s t
            (sym (seen_late hash session_id token w t found e) ∙ h))
      | inr e ↦
          let r =
            checked hash session_id token s t
              (sym (seen_in_time hash session_id token w t found e) ∙ h) in
          let active : is_active t.status ≡ true = r.1 in
          let in_time : w.now ≤ t.expires_at = ground (arith, active, e) in
          record {
            row = found ∙ ap some r.0;
            active = active_lem s.status (ap (λ x. is_active x.status) (sym r.0) ∙ active);
            unexpired = subst (λ x. w.now ≤ x.expires_at) r.0 in_time;
            token_fits = ap (λ x. x.collector_token_hash) (sym r.0) ∙ r.2;
          }
    ]

missing_row :
    (hash : String → String) (session_id : String) (token : Option String) (w : World)
    (s : IastSession)
    → find_by session_key session_id w.db.sessions ≡ none
    → ¬ ((authenticate_collector hash session_id token w).0 ≡ ok s)
unfolding authenticate_collector get_session reflect_expiry check_token
missing_row hash session_id token w s absent h = absurd (ground arith)

-- The collector admits an agent only to a session that is active and not yet expired, with the token
-- whose digest the session keeps.
pub authenticate_collector-Admitted :
    (hash : String → String) (session_id : String) (token : Option String) (w : World)
    (s : IastSession)
    → (authenticate_collector hash session_id token w).0 ≡ ok s
    → Admitted hash session_id token w s
authenticate_collector-Admitted hash session_id token w s h =
    elim (Option-cases (find_by session_key session_id w.db.sessions)) [
      | inl absent ↦ absurd (missing_row hash session_id token w s absent h)
      | inr (t, found) ↦ found-Admitted hash session_id token w s t found h
    ]
