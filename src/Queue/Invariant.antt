-- ===== src/Queue/Invariant.antt =====
-- What holds of the three tables between two operations of the queue (internal/queue).
pub mod Defs
pub mod Ending
pub mod Outcomes
pub mod Recovery
pub mod Claiming
pub mod Entries
