-- ===== src/Tests/Core.antt =====
-- The theorems of core/ at concrete inputs.
use omniscan.Prelude.{String, ◌≡◌, refl, ◌↔◌, true, List, [], ◌∷◌, ◌++◌}
use omniscan.Prelude.Try.{ok}
use omniscan.Python.Url.{hostname, has_scheme_mark}
use omniscan.Python.Fnmatch.{fnmatch}
use omniscan.Core.Enums.{dast}
use omniscan.Core.ScopeGuard.{enforce, host_of, matches_any}
use omniscan.Core.ScopeGuard.Laws.{Authorized, enforce_iff, enforce_mono}

abbrev patterns : List String
patterns = "*.example.com" ∷ []

abbrev hosts : List String
hosts = "https://api.example.com/v1" ∷ []

enforce_iff_example :
    (enforce dast true patterns ("prod.example.com" ∷ []) hosts ≡ ok tt)
    ↔ Authorized dast true patterns ("prod.example.com" ∷ []) hosts
enforce_iff_example = enforce_iff dast true patterns ("prod.example.com" ∷ []) hosts

in_scope : enforce dast true patterns ([] ++ "prod.example.com" ∷ []) hosts ≡ ok tt
unfolding enforce host_of hostname has_scheme_mark matches_any fnmatch
in_scope = refl

enforce_mono_example : enforce dast true (patterns ++ "10.0.0.*" ∷ []) [] hosts ≡ ok tt
enforce_mono_example =
    enforce_mono dast true patterns ("10.0.0.*" ∷ []) [] ("prod.example.com" ∷ []) hosts in_scope
