-- ===== src/Domain.antt =====
-- jobs/domain: the exceptions and the map of permitted status changes.
pub mod Exceptions
pub mod StateMachine
pub mod Payload
