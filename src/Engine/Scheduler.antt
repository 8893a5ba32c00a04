-- ===== src/Engine/Scheduler.antt =====
-- engine/scheduler.py: the execution body of a scan. Each `async with session_scope()` is one
-- transaction; what the platform around the engine does is a record of parameters.
pub mod Platform
pub mod Attempt
pub mod Job
pub mod Persist
pub mod Execute
pub mod ScansKept
pub mod Terminal
pub mod Idempotent
