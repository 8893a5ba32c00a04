-- ===== src/Adapters.antt =====
-- adapters/: the contract of a scanner adapter, the registry, the sandbox runners, and the adapters.
pub mod Base
pub mod Registry
pub mod Runner
pub mod Chainability
pub mod Tools
pub mod Sast
pub mod Dast
pub mod Rvd
pub mod Builtin
