-- ===== src/Watcher.antt =====
-- The discovery of files (internal/watcher).
pub mod Match
pub mod Stable
pub mod Settling
pub mod Globs
pub mod Selection
mod Examples
mod StableExamples
