-- ===== src/Findings.antt =====
-- backend/app/findings: what a finding is, how its status changes, and how observations of the same
-- finding are merged into one row.
pub mod Signature
pub mod Lifecycle
pub mod Service
