-- ===== src/Normalize.antt =====
-- normalize/: native scanner output becomes findings.
pub mod Runtime
pub mod Sarif
pub mod Severity
pub mod Fingerprint
pub mod Finding
