-- ===== src/Adapters/Dast.antt =====
-- adapters/dast/: the scanners of running targets, one module each.
pub mod Nuclei
pub mod Zap
pub mod Vigolium
