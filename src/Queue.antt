-- ===== src/Queue.antt =====
-- The durable job queue (internal/queue): types, tables, transactions, operations, and what they
-- keep.
pub mod Types
pub mod Tx
pub mod Jobs
pub mod Commands
pub mod History
pub mod Invariant
pub mod System
pub mod Behaviour
mod Examples
