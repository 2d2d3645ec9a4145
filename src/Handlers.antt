-- ===== src/Handlers.antt =====
-- jobs/handlers
pub mod Context
pub mod Registry
pub mod Simulated
