-- ===== src/Adapters/Sast.antt =====
-- adapters/sast/: the static analyzers, one module each.
pub mod Semgrep
pub mod Bandit
pub mod Trivy
pub mod Gitleaks
pub mod Codeql
pub mod Clair
pub mod Demoscan
