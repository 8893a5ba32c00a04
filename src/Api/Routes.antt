-- ===== src/Api/Routes.antt =====
-- api/routes/: what the handlers decide; the framework calls them and prints what they return.
pub mod Reports
pub mod Findings
pub mod Webhooks
pub mod Scans
pub mod Iast
