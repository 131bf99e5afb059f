-- ===== src/Config.antt =====
-- The configuration of a daemon (internal/config).
pub mod Csv
pub mod Commands
pub mod Validation
pub mod RunOptions
pub mod Mounts
mod Examples
