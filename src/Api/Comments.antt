-- ===== src/Api/Comments.antt =====
-- api/services/comments.py: threaded comments that their authors edit and delete.
use omniscan.Prelude.{String, ◌<>◌, ◌==◌, ◌≡◌, refl, true, false, Option, none, some}
use omniscan.Prelude.{List, [], ◌∷◌, ◌++◌, select, ltb, if◌then◌else◌}
use omniscan.Prelude.Sort.{sort}
use omniscan.Prelude.{eq_refl, eq_iff, Bool-cases, Option-cases, inl, inr, sym, ap, ◌∙◌}
use omniscan.Prelude.Table.{find_by, update_by, find_by-update_by_self, find_by-update_by_ne}
use omniscan.Prelude.Try.{Try, ok, raise, value_error, permission_error}
use omniscan.Python.Json.{Items, str, arr}
use omniscan.Core.Models.{Db, Comment}
use omniscan.Core.World.{World, Exec, ◌>>=◌, ◌>>◌, pure, lift, gets, modify, new_id, clock}
use omniscan.Api.Audit.{Redactor, record_audit}
use omniscan.Api.Findings.{get_finding}

abbrev pub comment_key : Comment → String
comment_key c = c.id

texts : List String → Items
texts [] = Items.nil
texts (s ∷ ss) = Items.cons (str s) (texts ss)

unfoldable pub add :
    Redactor → String → String → String → Option String → List String → Exec Comment
unfolding get_finding new_id record_audit texts
add redact finding_id author_id body parent_id mentions = do
  finding ← get_finding finding_id
  id ← new_id "cmt"
  now ← clock
  let comment : Comment = record {
    id = id;
    finding_id = finding_id;
    parent_id = parent_id;
    author_id = author_id;
    body = body;
    mentions = mentions;
    edited = false;
    deleted = false;
    created_at = now;
  }
  modify (λ db. record db { comments = db.comments ++ comment ∷ [] })
  record_audit redact author_id "comment" "finding" finding_id
      (("comment_id", str id) ∷ ("mentions", arr (texts mentions)) ∷ [])
  pure comment

unfoldable pub list_for_finding : Db → String → List Comment
list_for_finding db finding_id =
    sort (λ a b. ltb a.created_at b.created_at)
      (select (λ c. c.finding_id == finding_id) db.comments)

owned : Option Comment → String → String → String → Try Comment
owned none comment_id actor_id verb = raise (value_error ("unknown comment: " <> comment_id))
owned (some c) comment_id actor_id verb =
    if c.author_id == actor_id
    then ok c
    else raise (permission_error ("only the author may " <> verb <> " a comment"))

abbrev change : String → (Comment → Comment) → Exec (Unit {0})
change comment_id f =
    modify (λ db. record db { comments = update_by comment_key comment_id f db.comments })

unfoldable pub edit : Redactor → String → String → String → Exec Comment
unfolding owned record_audit
edit redact comment_id actor_id body = do
  row ← gets (λ db. find_by comment_key comment_id db.comments)
  comment ← lift (owned row comment_id actor_id "edit")
  record_audit redact actor_id "comment.edit" "comment" comment_id
      (("previous_body", str comment.body) ∷ [])
  change comment_id (λ c. record c { body = body; edited = true })
  pure (record comment { body = body; edited = true })

unfoldable pub delete : Redactor → String → String → Exec Comment
unfolding owned record_audit
delete redact comment_id actor_id = do
  row ← gets (λ db. find_by comment_key comment_id db.comments)
  comment ← lift (owned row comment_id actor_id "delete")
  change comment_id (λ c. record c { deleted = true; body = "[deleted]" })
  record_audit redact actor_id "comment.delete" "comment" comment_id []
  pure (record comment { deleted = true; body = "[deleted]" })

-- The actor's own row is not the one under `k`, which somebody else wrote.
kept :
    (actor_id comment_id k : String) (f : Comment → Comment) (rows : List Comment) (c d : Comment)
    → ((x : Comment) → comment_key (f x) ≡ comment_key x)
    → find_by comment_key k rows ≡ some c
    → (c.author_id == actor_id) ≡ false
    → find_by comment_key comment_id rows ≡ some d
    → (d.author_id == actor_id) ≡ true
    → find_by comment_key k (update_by comment_key comment_id f rows) ≡ some c
kept actor_id comment_id k f rows c d keeps found other row own =
    elim (Bool-cases (k == comment_id)) [
      | inl e ↦
          let same : some c ≡ some d =
            sym found ∙ ap (λ i. find_by comment_key i rows) ((eq_iff k comment_id).0 e) ∙ row in
          absurd (cc (same, other, own))
      | inr e ↦ find_by-update_by_ne comment_key comment_id k f rows keeps e ∙ found
    ]

-- Nobody's comment is changed by another actor: whatever comment the actor edits or deletes, and
-- whether that succeeds or raises, a comment by a different author is found as it was.
pub others_kept :
    (redact : Redactor) (comment_id actor_id body k : String) (c : Comment) (w : World)
    → find_by comment_key k w.db.comments ≡ some c
    → (c.author_id == actor_id) ≡ false
    → (find_by comment_key k (edit redact comment_id actor_id body w).1.db.comments ≡ some c)
      × (find_by comment_key k (delete redact comment_id actor_id w).1.db.comments ≡ some c)
unfolding edit delete record_audit
others_kept redact comment_id actor_id body k c w found other =
    elim (Option-cases (find_by comment_key comment_id w.db.comments)) [
      | inl e ↦ rw e (found, found)
      | inr (d, e) ↦ elim (Bool-cases (d.author_id == actor_id)) [
        | inl own ↦
            let edited =
              kept actor_id comment_id k (λ x. record x { body = body; edited = true })
                w.db.comments c d (λ x. refl) found other e own in
            let deleted =
              kept actor_id comment_id k (λ x. record x { deleted = true; body = "[deleted]" })
                w.db.comments c d (λ x. refl) found other e own in
            rw (e, own) (edited, deleted)
        | inr foreign ↦ rw (e, foreign) (found, found)
      ]
    ]

-- A deleted comment keeps its row and its identifier: the text is replaced and the row is marked,
-- and the findings and their triage records are as before.
pub delete_marks :
    (redact : Redactor) (comment_id : String) (c : Comment) (w : World)
    → find_by comment_key comment_id w.db.comments ≡ some c
    → let (r, v) = delete redact comment_id c.author_id w in
      (r ≡ ok (record c { deleted = true; body = "[deleted]" }))
      × (find_by comment_key comment_id v.db.comments
          ≡ some (record c { deleted = true; body = "[deleted]" }))
      × (v.db.findings ≡ w.db.findings)
      × (v.db.triage_records ≡ w.db.triage_records)
unfolding delete record_audit
delete_marks redact comment_id c w found =
    let mark = λ (x : Comment). record x { deleted = true; body = "[deleted]" } in
    let changed =
      find_by-update_by_self comment_key comment_id mark w.db.comments (λ x. refl) c found in
    rw (found, eq_refl c.author_id) (refl, changed, refl, refl)
