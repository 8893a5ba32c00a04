-- ===== src/Prelude/Try.antt =====
-- Python's exceptions as values: `raise`, and `try ... except` on the error case.
use Prim.Native.Nat.{ℕ}
use Prim.Native.String.{String}
use mathlib.Core.Path.{◌≡◌, refl}
use mathlib.Core.Logic.{◌⊎◌, inl, inr}
use mathlib.Core.Bool.{Bool, true, false}

-- The exceptions of the repository's code, and those of Python and its libraries that it meets.
pub data Exn : Type 0 where
  value_error key_error assertion_error permission_error : String → Exn
  invalid_transition scope_violation workspace_error runner_error : String → Exn
  auth_error forbidden iast_error webhook_error secret_not_found backend_unavailable : String → Exn
  problem : ℕ → String → String → String → Exn
  other_error : String → Exn

-- `str(exc)`
unfoldable pub message : Exn → String
message (value_error m) = m
message (key_error m) = m
message (assertion_error m) = m
message (permission_error m) = m
message (invalid_transition m) = m
message (scope_violation m) = m
message (workspace_error m) = m
message (runner_error m) = m
message (auth_error m) = m
message (forbidden m) = m
message (iast_error m) = m
message (webhook_error m) = m
message (secret_not_found m) = m
message (backend_unavailable m) = m
message (problem status title detail type) = detail
message (other_error m) = m

pub data Try {ℓ} (A : Type ℓ) : Type ℓ where
  ok : A → Try A
  raise : Exn → Try A

infixl 5 ◌>>=◌ ◌>>◌
abbrev pub ◌>>=◌ {ℓ κ} : {A : Type ℓ} {B : Type κ} → Try A → (A → Try B) → Try B
ok a >>= f = f a
raise e >>= f = raise e

abbrev pub ◌>>◌ {ℓ} : {B : Type ℓ} → Try (Unit {0}) → Try B → Try B
m >> k = m >>= λ _. k

-- `if b: raise e`
abbrev pub raise_if : Bool → Exn → Try (Unit {0})
raise_if true e = raise e
raise_if false e = ok tt

pub Try-cases {ℓ} : {A : Type ℓ} (t : Try A) → ((a : A) × (t ≡ ok a)) ⊎ ((e : Exn) × (t ≡ raise e))
Try-cases (ok a) = inl (a, refl)
Try-cases (raise e) = inr (e, refl)

-- A sequence that ends without an exception is one whose first part did.
pub bind-ok {ℓ κ} :
    {A : Type ℓ} {B : Type κ} (t : Try A) (k : A → Try B) (b : B)
    → t >>= k ≡ ok b
    → (a : A) × (t ≡ ok a) × (k a ≡ ok b)
bind-ok (ok a) k b h = (a, refl, h)
bind-ok (raise e) k b h = absurd (cc h)

pub ok-injective {ℓ} : {A : Type ℓ} {a b : A} → ok a ≡ ok b → a ≡ b
ok-injective h = cc h
