-- ===== src/Tools.antt =====
-- backend/app/tools: the tool definitions and the registry that validates arguments.
pub mod Schema
pub mod Patterns
pub mod Registry
pub mod Loading
