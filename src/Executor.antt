-- ===== src/Executor.antt =====
-- The executor of commands (internal/executor).
pub mod Capture
pub mod Captured
pub mod Environment
pub mod Environments
pub mod Execute
pub mod Outcomes
pub mod Expander
pub mod Expanded
mod Examples
