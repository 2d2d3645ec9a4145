-- ===== src/Capacity.antt =====
-- The accounting of concurrency slots: the counter of a tenant, its reservations, its jobs that hold
-- a slot, and the attempts that run (jobs/services and jobs/models/reservation.py).
pub mod Balance
pub mod Release
pub mod Moves
pub mod Attempts
pub mod Complete
pub mod Refresh
pub mod Claim
pub mod Promote
pub mod Dispatch
pub mod Publish
pub mod Cancel
pub mod Submit
pub mod Fail
pub mod Finish
