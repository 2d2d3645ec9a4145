-- ===== src/Workers.antt =====
-- What a worker does with the jobs that it is sent, and the services with their outbox events.
pub mod Failures
pub mod Runs
pub mod Redelivery
pub mod Outbox
pub mod Delivery
pub mod Messages
pub mod Bounds
pub mod Numbers
pub mod Completion
pub mod Events
pub mod Sends
pub mod Drains
pub mod Reaper
pub mod Zombies
