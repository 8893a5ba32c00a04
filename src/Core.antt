-- ===== src/Core.antt =====
-- core/: the enums, the models, the security layer and the scope guard.
pub mod Enums
pub mod Models
pub mod World
pub mod ScopeGuard
pub mod Security
pub mod Redact
pub mod Secrets
pub mod ObjectStore
