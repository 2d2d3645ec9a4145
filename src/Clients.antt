-- ===== src/Clients.antt =====
-- What the requests of a client do.
mod Fits
pub mod Cancel
pub mod Replay
