-- ===== src/Models.antt =====
-- The rows of the database: jobs/models and tenants/models.py. An id is a number in place of a UUID,
-- and an instant a number of microseconds; a nullable column is an `Option`.
pub mod Json
pub mod Job
pub mod Attempt
pub mod Reservation
pub mod Overlap
pub mod Outbox
pub mod DeadLetter
pub mod SchedulerState
pub mod Tenant
