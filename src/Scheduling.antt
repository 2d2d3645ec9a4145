-- ===== src/Scheduling.antt =====
-- What the scheduler chooses, and what it knows.
pub mod Order
pub mod Announce
pub mod Refresh
pub mod Wake
pub mod Retries
pub mod Leases
pub mod Backoff
pub mod Progress
pub mod Poison
