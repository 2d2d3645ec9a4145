-- ===== src/Exclusion.antt =====
-- Overlap locks (jobs/services/overlap.py, jobs/models/overlap.py).
pub mod Rows
pub mod Dispatch
pub mod Locks
pub mod Held
pub mod Ends
pub mod Starts
pub mod Mutual
