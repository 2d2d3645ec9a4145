-- ===== src/Tests.antt =====
-- Runs of the model on concrete data, and each theorem at an input that meets its hypotheses.
mod Columns
mod Scenario
mod Framework
mod Api
mod Progress
mod Workers
mod Reaped
mod System
mod Services
mod Locks
mod Requests
