-- ===== src/Witnesses.antt =====
-- The theorems at concrete inputs that meet their hypotheses, and tests of the definitions.
pub mod Targets
pub mod Tools
pub mod Missions
pub mod Jobs
pub mod Routes
pub mod Chains
pub mod Findings
pub mod Scheduling
pub mod Diff
pub mod Agent
pub mod Hooks
pub mod Graph
pub mod Planning
pub mod RateLimit
pub mod Reconciliation
