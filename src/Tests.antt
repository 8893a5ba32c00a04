-- ===== src/Tests.antt =====
-- Concrete inputs, and the theorems at them.
pub mod Data
pub mod Core
pub mod Normalize
pub mod Adapters
pub mod Engine
pub mod Api
pub mod Scanners
pub mod Routes
pub mod Agent
