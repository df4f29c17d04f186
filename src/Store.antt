-- ===== src/Store.antt =====
-- The database layer of go-shared, as far as the delegation subsystem uses it.
pub mod Types
pub mod World
pub mod Tasks
pub mod Locks
pub mod Rows
