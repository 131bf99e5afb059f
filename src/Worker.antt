-- ===== src/Worker.antt =====
-- The workers that run the pipelines (internal/worker).
pub mod Expansion
pub mod Shell
pub mod Failure
pub mod Marker
pub mod Process
pub mod Trace
pub mod Keeping
pub mod Durable
pub mod Success
pub mod Pipeline
pub mod Steps
pub mod Failing
mod Examples
