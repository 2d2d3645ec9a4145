-- ===== src/Lifecycle/Services.antt =====
-- Each service of jobs/services as a history of the job table.
pub mod Finish
pub mod Others
pub mod Dispatch
