-- ===== src/Core/World.antt =====
-- core/db.py and core/ids.py: what a service runs in. The tables are `db`; `rand` is the stream of
-- texts that `_rand` draws and `draws` the number drawn so far; `now` is the clock, which the
-- environment advances between operations; `outbox` holds the webhook posts that were attempted.
pub mod Keeps
use omniscan.Prelude.{ℕ, suc, String, ◌<>◌, Bool, List, Option, none, some, ◌≡◌, refl}
use omniscan.Prelude.Try.{Try, ok, raise, Exn, raise_if}
use omniscan.Core.Models.{Db}

pub record Post : Type 0 where
  pub url : String
  pub event : String
  pub signature : String
  pub body : String

pub record World : Type 0 where
  pub db : Db
  pub rand : ℕ → String
  pub draws : ℕ
  pub now : ℕ
  pub outbox : List Post

-- An operation may raise, and what it did to the world before stays visible to its session.
abbrev pub Exec {ℓ} : Type ℓ → Type ℓ
Exec A = World → Try A × World

module _ {ℓ κ} {A : Type ℓ} {B : Type κ} where
  abbrev pub continue : Try A → (A → Exec B) → Exec B
  continue (ok a) f w = f a w
  continue (raise e) f w = (raise e, w)

  infixl 5 ◌>>=◌
  abbrev pub ◌>>=◌ : Exec A → (A → Exec B) → Exec B
  ◌>>=◌ m f w = let (r, v) = m w in continue r f v

infixl 5 ◌>>◌
abbrev pub ◌>>◌ {ℓ} : {B : Type ℓ} → Exec (Unit {0}) → Exec B → Exec B
m >> k = m >>= λ _. k

module _ {ℓ} {A : Type ℓ} where
  abbrev pub pure : A → Exec A
  pure a w = (ok a, w)

  abbrev pub throw : Exn → Exec A
  throw e w = (raise e, w)

  abbrev pub lift : Try A → Exec A
  lift r w = (r, w)

  abbrev pub gets : (Db → A) → Exec A
  gets f w = (ok (f w.db), w)

  abbrev pub settle : Try A → World → World → Try A × World
  settle (ok a) w v = (ok a, v)
  settle (raise e) w v = (raise e, record v { db = w.db })

  -- `session_scope`: commit on success, roll the tables back on an exception.
  unfoldable pub session_scope : Exec A → Exec A
  session_scope m w = let (r, v) = m w in settle r w v

-- A write to the tables.
abbrev pub modify : (Db → Db) → Exec (Unit {0})
modify f w = (ok tt, record w { db = f w.db })

abbrev pub fail_if : Bool → Exn → Exec (Unit {0})
fail_if b e w = (raise_if b e, w)

-- `new_id(prefix)`
unfoldable pub new_id : String → Exec String
new_id prefix w = (ok (prefix <> "_" <> w.rand w.draws), record w { draws = suc w.draws })

-- `datetime.now(UTC)`
abbrev pub clock : Exec ℕ
clock w = (ok w.now, w)

module _ {ℓ} {A : Type ℓ} where
  settle_rollback :
      (r : Try A) (w v : World) (e : Exn) → (settle r w v).0 ≡ raise e → (settle r w v).1.db ≡ w.db
  settle_rollback (ok a) w v e h = cc
  settle_rollback (raise x) w v e h = refl

  -- A session that raises leaves the tables as they were.
  pub session_scope_rollback :
      (m : Exec A) (w : World) (e : Exn)
      → (session_scope m w).0 ≡ raise e
      → (session_scope m w).1.db ≡ w.db
  unfolding session_scope
  session_scope_rollback m w e h = settle_rollback (m w).0 w (m w).1 e h

-- A sequence that ends without an exception is one whose first part did.
pub continue-ok {ℓ κ} :
    {A : Type ℓ} {B : Type κ} (t : Try A) (f : A → Exec B) (w : World) (b : B)
    → (continue t f w).0 ≡ ok b
    → (a : A) × (t ≡ ok a) × ((f a w).0 ≡ ok b)
continue-ok (ok a) f w b h = (a, refl, h)
continue-ok (raise e) f w b h = absurd (cc h)
