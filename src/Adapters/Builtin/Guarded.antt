-- ===== src/Adapters/Builtin/Guarded.antt =====
-- What the registered adapters ask of the sandbox.
use mathlib.Core.Path.{subst}
use omniscan.Prelude.Table.{find_by, find_by-All}
use omniscan.Adapters.Registry.{get, name_of}
use omniscan.Prelude.{
  Option-cases, inl, inr, ◌==◌, if◌then◌else◌, not, String, Bool, true, false, Option, none, some,
  [], ◌∷◌, ◌≡◌, refl, All, is_nil, arith,
}
use omniscan.Prelude.Try.{Exn, ok, raise_if, bind-ok, ◌>>◌}
use omniscan.Prelude.Text.{truthy}
use omniscan.Prelude.Dict.{Dict}
use omniscan.Core.Enums.{dast}
use omniscan.Adapters.Base.{egress, none_, ScanRequest, ContainerSpec, ScannerAdapter}
use omniscan.Adapters.Runner.{is_target_network, enforce_sast_network, is_unpinned, ends_latest}
use omniscan.Python.Url.{has_char}
use omniscan.Adapters.Builtin.{Host, builtins}
use omniscan.Adapters.Tools.{Libraries, require_class, base_url_of}
use omniscan.Adapters.Sast.Semgrep
use omniscan.Adapters.Sast.Bandit
use omniscan.Adapters.Sast.Trivy
use omniscan.Adapters.Sast.Gitleaks
use omniscan.Adapters.Sast.Codeql
use omniscan.Adapters.Sast.Clair
use omniscan.Adapters.Sast.Demoscan
use omniscan.Adapters.Dast.Nuclei
use omniscan.Adapters.Dast.Zap
use omniscan.Adapters.Dast.Vigolium
use omniscan.Adapters.Rvd.Engine

-- The runner's own checks pass, the network of a target is for a dynamic scan whose allowlist is not
-- empty, and a secret is only ever the request's reference.
pub record Guarded (request : ScanRequest) (spec : ContainerSpec) : Type 0 where
  pub pinned : is_unpinned spec.image ≡ false
  pub allowed : enforce_sast_network request spec ≡ ok tt
  pub in_scope :
      is_target_network spec.network ≡ true
      → (request.scan_class ≡ dast) × (is_nil request.scope_allow ≡ false)
  pub by_reference : All (λ entry. request.auth_ref ≡ some entry.1) spec.secret_refs

abbrev IsGuarded : ScannerAdapter → Type 0
IsGuarded adapter =
    (request : ScanRequest) (spec : ContainerSpec)
    → adapter.validate_inputs request ≡ ok tt
    → adapter.build_invocation request ≡ ok spec
    → Guarded request spec

-- A reference that is given is passed on under one name.
abbrev References : Option String → Dict String → Type 0
References ref secret_refs = All (λ entry. ref ≡ some entry.1) secret_refs

module _ (request : ScanRequest) (made spec : ContainerSpec) (built : ok made ≡ ok spec) where
  made_is_built : made ≡ spec
  made_is_built = cc built

  sealed :
      is_unpinned made.image ≡ false
      → is_target_network made.network ≡ false
      → References request.auth_ref made.secret_refs
      → Guarded request spec
  unfolding enforce_sast_network
  sealed pinned apart refs = subst (Guarded request) made_is_built (record {
    pinned = pinned;
    allowed = ground (arith, apart);
    in_scope = λ e. absurd (ground (arith, e, apart));
    by_reference = refs;
  })

  aimed :
      is_unpinned made.image ≡ false
      → request.scan_class ≡ dast
      → is_nil request.scope_allow ≡ false
      → References request.auth_ref made.secret_refs
      → Guarded request spec
  unfolding enforce_sast_network
  aimed pinned dynamic listed refs = subst (Guarded request) made_is_built (record {
    pinned = pinned;
    allowed = rw dynamic refl;
    in_scope = λ e. (dynamic, listed);
    by_reference = refs;
  })

-- The three checks of every dynamic scanner.
dynamic_checks :
    (request : ScanRequest) (other : String) (no_url no_scope : Exn)
    → (do
      require_class request dast other
      raise_if (not (truthy request.target.base_url)) no_url
      raise_if (is_nil request.scope_allow) no_scope)
      ≡ ok tt
    → (request.scan_class ≡ dast) × (is_nil request.scope_allow ≡ false)
dynamic_checks request other no_url no_scope h = ground arith

not_target : (b : Bool) → is_target_network (if b then egress else none_) ≡ false
not_target true = refl
not_target false = refl

given_refs : (key r : String) (b : Bool) → References (some r) (if b then [] else (key, r) ∷ [])
given_refs key r true = tt
given_refs key r false = (refl, tt)

module _ (lib : Libraries) (request : ScanRequest) (spec : ContainerSpec) where
  demoscan-Guarded : ok (Demoscan.invocation lib request) ≡ ok spec → Guarded request spec
  unfolding Demoscan.invocation is_unpinned ends_latest has_char
  demoscan-Guarded b = sealed request _ spec b refl refl tt

  semgrep-Guarded : ok (Semgrep.invocation lib request) ≡ ok spec → Guarded request spec
  unfolding Semgrep.invocation is_unpinned ends_latest has_char
  semgrep-Guarded b = sealed request _ spec b refl refl tt

  gitleaks-Guarded : ok (Gitleaks.invocation lib request) ≡ ok spec → Guarded request spec
  unfolding Gitleaks.invocation is_unpinned ends_latest has_char
  gitleaks-Guarded b = sealed request _ spec b refl refl tt

  bandit-Guarded : ok (Bandit.invocation lib request) ≡ ok spec → Guarded request spec
  unfolding Bandit.invocation is_unpinned ends_latest has_char
  bandit-Guarded b = sealed request _ spec b refl refl tt

  trivy-Guarded : ok (Trivy.invocation lib request) ≡ ok spec → Guarded request spec
  unfolding Trivy.invocation is_unpinned ends_latest has_char
  trivy-Guarded b = sealed request _ spec b refl refl tt

  codeql-Guarded : ok (Codeql.invocation lib request) ≡ ok spec → Guarded request spec
  unfolding Codeql.invocation is_unpinned ends_latest has_char
  codeql-Guarded b = sealed request _ spec b refl refl tt

  clair_refs : (ref : Option String) → References ref (Clair.registry_auth ref)
  unfolding Clair.registry_auth
  clair_refs none = tt
  clair_refs (some r) = given_refs _ r (r == "")

  clair-Guarded :
      (image : Option String)
      → Clair.invocation_of lib request image ≡ ok spec
      → Guarded request spec
  unfolding Clair.invocation_of is_unpinned ends_latest has_char
  clair-Guarded none b = absurd (cc b)
  clair-Guarded (some image) b = sealed request _ spec b refl refl (clair_refs request.auth_ref)

  zap_refs : (ref : Option String) → References ref (Zap.auth_refs ref)
  unfolding Zap.auth_refs
  zap_refs none = tt
  zap_refs (some r) = given_refs _ r (r == "")

  zap-Guarded :
      Zap.validate lib request ≡ ok tt → Zap.invocation lib request ≡ ok spec → Guarded request spec
  unfolding Zap.validate Zap.invocation Zap.invocation_of is_unpinned ends_latest has_char
  zap-Guarded v b =
      let (url, _, e) = bind-ok (base_url_of request) _ spec b in
      let (dynamic, listed) = dynamic_checks request _ _ _ v in
      aimed request _ spec e refl dynamic listed (zap_refs request.auth_ref)

  nuclei-Guarded :
      Nuclei.validate lib request ≡ ok tt
      → Nuclei.invocation lib request ≡ ok spec
      → Guarded request spec
  unfolding Nuclei.validate Nuclei.invocation Nuclei.invocation_of is_unpinned ends_latest has_char
  nuclei-Guarded v b =
      let (url, _, e) = bind-ok (base_url_of request) _ spec b in
      let (dynamic, listed) = dynamic_checks request _ _ _ v in
      aimed request _ spec e refl dynamic listed tt

  vigolium-Guarded :
      Vigolium.validate lib request ≡ ok tt
      → Vigolium.invocation lib request ≡ ok spec
      → Guarded request spec
  unfolding Vigolium.validate Vigolium.invocation Vigolium.invocation_of is_unpinned ends_latest
      has_char
  vigolium-Guarded v b =
      let (url, _, e) = bind-ok (base_url_of request) _ spec b in
      let (dynamic, listed) = dynamic_checks request _ _ _ v in
      aimed request _ spec e refl dynamic listed tt

  rvd-Guarded : ok (Engine.invocation request) ≡ ok spec → Guarded request spec
  unfolding Engine.invocation is_unpinned ends_latest has_char
  rvd-Guarded b = sealed request _ spec b refl (not_target (Engine.has_target request)) tt

builtins-IsGuarded : (host : Host) → All IsGuarded (builtins host)
unfolding builtins Clair.invocation
builtins-IsGuarded host = (
  (λ request spec v b. demoscan-Guarded host.lib request spec b),
  (
    (λ request spec v b. semgrep-Guarded host.lib request spec b),
    (
      (λ request spec v b. gitleaks-Guarded host.lib request spec b),
      (
        (λ request spec v b. bandit-Guarded host.lib request spec b),
        (
          (λ request spec v b. trivy-Guarded host.lib request spec b),
          (
            (λ request spec v b. clair-Guarded host.lib request spec request.source.image b),
            (
              (λ request spec v b. codeql-Guarded host.lib request spec b),
              (
                (λ request spec v b. nuclei-Guarded host.lib request spec v b),
                (
                  (λ request spec v b. zap-Guarded host.lib request spec v b),
                  (
                    (λ request spec v b. vigolium-Guarded host.lib request spec v b),
                    ((λ request spec v b. rvd-Guarded host.lib request spec b), tt),
                  ),
                ),
              ),
            ),
          ),
        ),
      ),
    ),
  ),
)

-- A request that the adapter registered under a name accepts is run as the runner demands: the image
-- is pinned, the network of a target is given to a dynamic scan with an allowlist only, and every
-- secret is the reference of the request.
pub get-Guarded :
    (host : Host) (name : String) (adapter : ScannerAdapter) (request : ScanRequest)
    (spec : ContainerSpec)
    → get (builtins host) name ≡ ok adapter
    → adapter.validate_inputs request ≡ ok tt
    → adapter.build_invocation request ≡ ok spec
    → Guarded request spec
unfolding get
get-Guarded host name adapter request spec found v b =
    elim (Option-cases (find_by name_of name (builtins host))) [
      | inl e ↦ absurd (ground arith)
      | inr (a, e) ↦
          let same : a ≡ adapter = ground arith in
          subst IsGuarded same
            (find_by-All name_of name IsGuarded (builtins host) a e (builtins-IsGuarded host))
            request spec v b
    ]
