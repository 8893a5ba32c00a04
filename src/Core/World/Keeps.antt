-- ===== src/Core/World/Keeps.antt =====
-- Invariants of actions: one rule for each way to build an action.
use omniscan.Prelude.{String, Bool, true, false, if◌then◌else◌}
use omniscan.Prelude.Try.{Try, ok, raise, Exn}
use omniscan.Core.Models.{Db}
use omniscan.Core.World.{
  World, Exec, continue, ◌>>=◌, pure, throw, lift, modify, settle, session_scope, new_id, clock,
}

-- `m` keeps `P`, a property of the tables, whether it returns or raises.
pub record Keeps {ℓ} {A : Type ℓ} (P : Db → Type 0) (m : Exec A) : Type ℓ where
  pub at : (w : World) → P w.db → P (m w).1.db

settle-keeps {ℓ} :
    {A : Type ℓ} (P : Db → Type 0) (r : Try A) (w v : World)
    → P w.db
    → P v.db
    → P (settle r w v).1.db
settle-keeps P (ok a) w v hw hv = hv
settle-keeps P (raise e) w v hw hv = hw

continue-keeps {ℓ κ} :
    {A : Type ℓ} {B : Type κ} (P : Db → Type 0) (r : Try A) (f : A → Exec B) (v : World)
    → ((a : A) → Keeps P (f a))
    → P v.db
    → P (continue r f v).1.db
continue-keeps P (ok a) f v kf h = (kf a).at v h
continue-keeps P (raise e) f v kf h = h

module _ {ℓ} {A : Type ℓ} {P : Db → Type 0} where
  pub Keeps-pure : (a : A) → Keeps P (pure a)
  Keeps-pure a = record { at = λ w h. h }

  pub Keeps-throw : (e : Exn) → Keeps P (throw {A = A} e)
  Keeps-throw e = record { at = λ w h. h }

  pub Keeps-lift : (r : Try A) → Keeps P (lift r)
  Keeps-lift r = record { at = λ w h. h }

  pub Keeps-if : (b : Bool) (m n : Exec A) → Keeps P m → Keeps P n → Keeps P (if b then m else n)
  Keeps-if true m n km kn = km
  Keeps-if false m n km kn = kn

  pub Keeps-session_scope : (m : Exec A) → Keeps P m → Keeps P (session_scope m)
  unfolding session_scope
  Keeps-session_scope m k = record {
    at = λ w h. let (r, v) = m w in settle-keeps P r w v h (k.at w h);
  }

module _ {ℓ κ} {A : Type ℓ} {B : Type κ} {P : Db → Type 0} where
  pub Keeps-bind :
      (m : Exec A) (f : A → Exec B) → Keeps P m → ((a : A) → Keeps P (f a)) → Keeps P (m >>= f)
  Keeps-bind m f km kf = record {
    at = λ w h. let (r, v) = m w in continue-keeps P r f v kf (km.at w h);
  }

module _ {P : Db → Type 0} where
  pub Keeps-clock : Keeps P clock
  Keeps-clock = record { at = λ w h. h }

  pub Keeps-new_id : (prefix : String) → Keeps P (new_id prefix)
  unfolding new_id
  Keeps-new_id prefix = record { at = λ w h. h }

  pub Keeps-modify : (f : Db → Db) → ((db : Db) → P db → P (f db)) → Keeps P (modify f)
  Keeps-modify f k = record { at = λ w h. k w.db h }

pub ruleset keeps_rules = (
  Keeps-pure, Keeps-throw, Keeps-lift, Keeps-if, Keeps-session_scope, Keeps-bind, Keeps-clock,
  Keeps-new_id, Keeps-modify,
)
