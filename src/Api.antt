-- ===== src/Api.antt =====
-- api/: the services behind the REST interface, and the decisions of its routes.
pub mod Audit
pub mod Findings
pub mod Webhooks
pub mod Projects
pub mod Scans
pub mod Comments
pub mod Iast
pub mod Errors
pub mod Routes
pub mod Dashboard
