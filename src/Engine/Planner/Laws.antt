-- ===== src/Engine/Planner/Laws.antt =====
-- What a plan guarantees: scope, and that every job names an adapter of the scan's class.
use omniscan.Prelude.{
  String, ◌≡◌, ◌≢◌, refl, Bool, true, not, Option, List, [], ◌∷◌, map, All, arith,
}
use omniscan.Prelude.{select, contains, is_nil, ◌↔◌, inl, inr}
use omniscan.Prelude.Try.{ok, Try-cases}
use omniscan.Core.Enums.{ScanClass}
use omniscan.Core.Models.{Source, TargetSpec}
use omniscan.Core.ScopeGuard.{enforce}
use omniscan.Core.ScopeGuard.Laws.{Authorized, enforce_iff}
use omniscan.Adapters.Registry.{Registry, names_for_class}
use omniscan.Engine.Planner.{ScanPlan, planned, plan, requested_hosts, requested_tools}

-- The tools are adapters of the class.
abbrev pub Available : Registry → ScanClass → List String → Type 0
Available adapters c = All (λ t. contains (names_for_class adapters c) t ≡ true)

-- What must hold for a request to be planned as `p`.
pub record Plannable (adapters : Registry) (c : ScanClass) (tools : Option (List String))
    (source : Source) (target : TargetSpec) (owned : Bool) (allow deny : List String) (p : ScanPlan)
    : Type 0 where
  pub hosts : List String
  pub readable : requested_hosts source target ≡ ok hosts
  pub authorized : Authorized c owned allow deny hosts
  pub some_tool : requested_tools adapters c tools ≢ []
  pub available : Available adapters c (requested_tools adapters c tools)
  pub planned_as :
      p ≡ record { scan_class = c; jobs = map (planned c) (requested_tools adapters c tools) }

none_unknown :
    (available ts : List String)
    → is_nil (select (λ t. not (contains available t)) ts) ≡ true
    → All (λ t. contains available t ≡ true) ts
none_unknown available [] h = tt
none_unknown available (t ∷ ts) h = (ground arith, none_unknown available ts (ground arith))

unknown_none :
    (available ts : List String)
    → All (λ t. contains available t ≡ true) ts
    → select (λ t. not (contains available t)) ts ≡ []
unknown_none available [] h = refl
unknown_none available (t ∷ ts) (e, h) = rw e (unknown_none available ts h)

module _ (adapters : Registry) (c : ScanClass) (tools : Option (List String)) (source : Source)
    (target : TargetSpec) (owned : Bool) (allow deny : List String) where
  plan-Plannable :
      (p : ScanPlan)
      → plan adapters c tools source target owned allow deny ≡ ok p
      → Plannable adapters c tools source target owned allow deny p
  unfolding plan
  plan-Plannable p h = elim (Try-cases (requested_hosts source target)) [
    | inl (hosts, e) ↦ elim (Try-cases (enforce c owned allow deny hosts)) [
      | inl (u, f) ↦ record {
        hosts = hosts;
        readable = e;
        authorized = (enforce_iff c owned allow deny hosts).0 f;
        some_tool = λ q. ground arith;
        available = none_unknown _ _ (ground arith);
        planned_as = ground arith;
      }
      | inr (x, f) ↦ absurd (ground arith)
    ]
    | inr (x, e) ↦ absurd (ground arith)
  ]

  Plannable-plan :
      (p : ScanPlan)
      → Plannable adapters c tools source target owned allow deny p
      → plan adapters c tools source target owned allow deny ≡ ok p
  unfolding plan
  Plannable-plan p h = ground (
    arith,
    h.readable,
    (enforce_iff c owned allow deny h.hosts).1 h.authorized,
    h.some_tool,
    unknown_none (names_for_class adapters c) (requested_tools adapters c tools) h.available,
    h.planned_as,
  )

  -- A request is planned exactly when its hosts can be read and are authorized, some tool is asked
  -- for or is the default, and all of them are adapters of the class; the plan then has one
  -- independent job for each tool, in their order.
  pub plan_iff :
      (p : ScanPlan)
      → (plan adapters c tools source target owned allow deny ≡ ok p)
        ↔ Plannable adapters c tools source target owned allow deny p
  plan_iff p = (plan-Plannable p, Plannable-plan p)
