-- ===== src/Control/Manager/Invariant.antt =====
-- What holds of the maps of the supervisor between its operations.
pub mod Defs
pub mod Changes
pub mod Endings
pub mod Launching
pub mod Candidates
pub mod Accepting
pub mod Reserving
pub mod Starting
pub mod Finishing
pub mod Stops
