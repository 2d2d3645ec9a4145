-- ===== src/Lifecycle.antt =====
-- The life of a job: what the services may do to the rows of the job table (jobs/services,
-- jobs/models/job.py), against the map of jobs/domain/transitions.py.
pub mod Moves
pub mod Rows
pub mod Edges
pub mod Services
