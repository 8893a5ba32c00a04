-- ===== src/Core/ScopeGuard/Laws.antt =====
-- What the scope guard admits, and how the two lists act on it.
use omniscan.Prelude.{String, ◌≡◌, refl, ◌↔◌, inl, inr, Bool, true, false, ◌||◌}
use omniscan.Prelude.{List, [], ◌∷◌, ◌++◌, is_nil, All, any-append, arith}
use omniscan.Prelude.Try.{ok, Try-cases}
use omniscan.Core.Enums.{ScanClass}
use omniscan.Core.ScopeGuard.{
  ScopeDecision, host_of, matches_any, dangerous_class, check_hosts, enforce,
}

-- The host can be read, no denied pattern fits it and some allowed pattern does.
abbrev pub InScope : List String → List String → String → Type 0
InScope allow deny host =
    (h : String) × (host_of host ≡ ok h)
    × (matches_any h deny ≡ false)
    × (matches_any h allow ≡ true)

-- The conditions of the guard, with no mention of its order of tests: an allowlist is needed only
-- where hosts are requested.
pub record Authorized (scan_class : ScanClass) (owned : Bool) (allow deny hosts : List String)
    : Type 0 where
  pub ownership : dangerous_class scan_class ≡ true → owned ≡ true
  pub scope : All (InScope allow deny) hosts

matches_any-nil : (h : String) → matches_any h [] ≡ false
unfolding matches_any
matches_any-nil h = refl

module _ (allow deny : List String) (given : is_nil allow ≡ false) where
  check_hosts_sound :
      (hosts : List String) (d : ScopeDecision)
      → check_hosts allow deny hosts ≡ ok d
      → d.allowed ≡ true
      → All (InScope allow deny) hosts
  unfolding check_hosts matches_any
  check_hosts_sound [] d h a = tt
  check_hosts_sound (host ∷ hosts) d h a = elim (Try-cases (host_of host)) [
    | inl (name, e) ↦
        ((name, e, ground arith, ground arith), check_hosts_sound hosts d (ground arith) a)
    | inr (x, e) ↦ absurd (ground arith)
  ]

  check_hosts_complete :
      (hosts : List String)
      → All (InScope allow deny) hosts
      → check_hosts allow deny hosts ≡ ok (record { allowed = true; reason = "in scope" })
  unfolding check_hosts
  check_hosts_complete [] h = refl
  check_hosts_complete (host ∷ hosts) h = ground (arith, check_hosts_complete hosts)

nothing_allowed : (deny : List String) (host : String) → InScope [] deny host → ⊥
unfolding matches_any
nothing_allowed deny host s = cc (s.3)

enforce_sound :
    (c : ScanClass) (owned : Bool) (allow deny hosts : List String)
    → enforce c owned allow deny hosts ≡ ok tt
    → Authorized c owned allow deny hosts
unfolding enforce check_hosts
enforce_sound c owned allow deny [] h = record { ownership = λ d. ground arith; scope = tt }
enforce_sound c owned [] deny (host ∷ hosts) h = absurd (ground arith)
enforce_sound c owned (a ∷ allow) deny (host ∷ hosts) h =
    elim (Try-cases (check_hosts (a ∷ allow) deny (host ∷ hosts))) [
      | inl (d, e) ↦ record {
        ownership = λ q. ground arith;
        scope = check_hosts_sound (a ∷ allow) deny refl (host ∷ hosts) d e (ground arith);
      }
      | inr (x, e) ↦ absurd (ground arith)
    ]

enforce_complete :
    (c : ScanClass) (owned : Bool) (allow deny hosts : List String)
    → Authorized c owned allow deny hosts
    → enforce c owned allow deny hosts ≡ ok tt
unfolding enforce
enforce_complete c owned allow deny [] h = unfold check_hosts in ground (arith, h.ownership)
enforce_complete c owned [] deny (host ∷ hosts) h = absurd (nothing_allowed deny host h.scope.0)
enforce_complete c owned (a ∷ allow) deny (host ∷ hosts) h =
    ground (arith, h.ownership, check_hosts_complete (a ∷ allow) deny refl (host ∷ hosts) h.scope)

-- The guard lets a scan through exactly when it is authorized: ownership is verified where the
-- class needs it, and every requested host can be read, fits an allowed pattern and no denied one.
-- With no requested hosts nothing is asked of the allowlist: an empty one lets the scan through.
pub enforce_iff :
    (c : ScanClass) (owned : Bool) (allow deny hosts : List String)
    → (enforce c owned allow deny hosts ≡ ok tt) ↔ Authorized c owned allow deny hosts
enforce_iff c owned allow deny hosts =
    (enforce_sound c owned allow deny hosts, enforce_complete c owned allow deny hosts)

matches_any-append :
    (h : String) (xs ys : List String)
    → matches_any h (xs ++ ys) ≡ (matches_any h xs || matches_any h ys)
unfolding matches_any
matches_any-append h xs ys = any-append _ xs ys

InScope-mono :
    (allow extra deny more hosts : List String)
    → All (InScope allow (deny ++ more)) hosts
    → All (InScope (allow ++ extra) deny) hosts
InScope-mono allow extra deny more [] s = tt
InScope-mono allow extra deny more (host ∷ hosts) ((h, e, denied, allowed), rest) = (
  (
    h,
    e,
    ground (arith, matches_any-append h deny more),
    ground (arith, matches_any-append h allow extra),
  ),
  InScope-mono allow extra deny more hosts rest,
)

-- A scan that passes still passes after patterns are taken off the denylist or put on the
-- allowlist. So a longer denylist never admits more, and a longer allowlist never admits less.
pub enforce_mono :
    (c : ScanClass) (owned : Bool) (allow extra deny more hosts : List String)
    → enforce c owned allow (deny ++ more) hosts ≡ ok tt
    → enforce c owned (allow ++ extra) deny hosts ≡ ok tt
enforce_mono c owned allow extra deny more hosts h =
    let a = enforce_sound c owned allow (deny ++ more) hosts h in
    enforce_complete c owned (allow ++ extra) deny hosts
      (record { ownership = a.ownership; scope = InScope-mono allow extra deny more hosts a.scope })
