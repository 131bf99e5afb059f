-- ===== src/Queue/Behaviour.antt =====
-- What each operation of internal/queue's `Store` returns, and what it does to the tables.
pub mod Order
pub mod Finish
pub mod Restart
pub mod Intake
