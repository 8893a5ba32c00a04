-- ===== src/Adapters/Builtin.antt =====
-- adapters/registry.py: the adapters that it registers, in their order.
pub mod Guarded
use omniscan.Prelude.{ℕ, String, List, [], ◌∷◌, ◌≡◌, refl}
use omniscan.Prelude.Table.{find_by}
use omniscan.Prelude.Try.{Try, ok}
use omniscan.Adapters.Base.{ScannerAdapter}
use omniscan.Adapters.Registry.{Registry, register_all, IsRegistry}
use omniscan.Adapters.Tools.{Libraries}
use omniscan.Adapters.Sast.Semgrep
use omniscan.Adapters.Sast.Bandit
use omniscan.Adapters.Sast.Trivy
use omniscan.Adapters.Sast.Gitleaks
use omniscan.Adapters.Sast.Codeql
use omniscan.Adapters.Sast.Clair
use omniscan.Adapters.Sast.Demoscan
use omniscan.Adapters.Dast.Nuclei
use omniscan.Adapters.Dast.Zap
use omniscan.Adapters.Dast.Vigolium
use omniscan.Adapters.Rvd.Base.{Backend}
use omniscan.Adapters.Rvd.Heuristic.{Checkout}
use omniscan.Adapters.Rvd.Engine

-- What the native adapters read of the file system, the model-backed backend and the random texts.
pub record Host : Type 0 where
  pub lib : Libraries
  pub walker : Demoscan.Walker
  pub checkout : Checkout
  pub ollama : Try Backend
  pub ids : ℕ → String

unfoldable pub builtins : Host → List ScannerAdapter
builtins host =
    Demoscan.adapter host.lib host.walker
    ∷ Semgrep.adapter host.lib
    ∷ Gitleaks.adapter host.lib
    ∷ Bandit.adapter host.lib
    ∷ Trivy.adapter host.lib
    ∷ Clair.adapter host.lib
    ∷ Codeql.adapter host.lib
    ∷ Nuclei.adapter host.lib
    ∷ Zap.adapter host.lib
    ∷ Vigolium.adapter host.lib
    ∷ Engine.adapter host.lib host.checkout host.ollama host.ids
    ∷ []

-- The import of the module registers each of them: no name is taken twice.
pub register_all-builtins : (host : Host) → register_all (builtins host) [] ≡ ok (builtins host)
unfolding builtins register_all find_by
register_all-builtins host = refl
