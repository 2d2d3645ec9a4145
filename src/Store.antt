-- ===== src/Store.antt =====
-- The database that the services share, and the queries and writes that they make.
pub mod Exec
pub mod Columns
pub mod Db
