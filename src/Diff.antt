-- ===== src/Diff.antt =====
-- backend/app/diff: what changed between two results of the same tool on the same asset.
pub mod Ports
pub mod Web
pub mod Engine
pub mod Same
pub mod Replay
pub mod Service
