-- ===== src/Engine.antt =====
-- engine/: the lifecycle, the planner, the workspace and the scheduler.
pub mod Lifecycle
pub mod Planner
pub mod Workspace
pub mod Scheduler
