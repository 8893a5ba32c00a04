-- ===== src/Agent.antt =====
-- omniscan_iast/: the agent inside an instrumented application.
pub mod Context
pub mod Reporter
pub mod Sinks
