-- ===== src/Control/Registry.antt =====
-- The registry of internal/control: the starts of instances that it keeps, and the restart of a daemon.
pub mod Registered
pub mod Saving
pub mod Starting
pub mod Acknowledged
pub mod Reloading
pub mod Restoring
pub mod Restart
pub mod Surviving
pub mod Relaunching
pub mod Invariant
pub mod Launching
pub mod Reading
pub mod Naming
pub mod Preparing
pub mod Opening
pub mod Soundness
pub mod System
mod Examples
mod SystemExamples
