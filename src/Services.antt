-- ===== src/Services.antt =====
-- jobs/services: one module for each service.
pub mod SchedulerState
pub mod Overlap
pub mod Submission
pub mod Dispatcher
pub mod Execution
pub mod Failure
pub mod Retry
pub mod Cancellation
pub mod Heartbeat
pub mod Reconciliation
pub mod Outbox
pub mod DeadLetter
