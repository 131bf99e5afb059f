-- ===== src/Control/Manager.antt =====
-- The supervisor of internal/control: its state, its operations, and what holds of it.
pub mod Types
pub mod Names
pub mod Causes
pub mod Lifecycle
pub mod Stopping
pub mod Preflight
pub mod Databases
pub mod Start
pub mod Fresh
pub mod Invariant
pub mod Selection
pub mod System
pub mod Every
pub mod Continuity
pub mod Retention
pub mod Ending
pub mod Releasing
pub mod Shutdown
pub mod Sample
mod Examples
