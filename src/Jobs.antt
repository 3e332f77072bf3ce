-- ===== src/Jobs.antt =====
-- backend/app/jobs: creating, running, cancelling and reconciling jobs.
pub mod Service
pub mod Creation
pub mod Execute
pub mod Routes
