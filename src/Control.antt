-- ===== src/Control.antt =====
-- The supervisor of background instances (internal/control).
pub mod Logs
pub mod Manager
pub mod Registry
