-- ===== src/Adapters/Rvd.antt =====
-- adapters/rvd/: the discovery loop and its backends.
pub mod Base
pub mod Heuristic
pub mod Engine
pub mod Ollama
