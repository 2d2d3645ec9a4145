-- ===== src/Idempotency.antt =====
-- What `idempotency_key` promises a client.
pub mod Keys
pub mod Resubmit
pub mod Fresh
