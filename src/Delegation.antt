-- ===== src/Delegation.antt =====
-- bot/delegation
pub mod Cycle
pub mod Locks
pub mod Validator
pub mod Events
pub mod Scheduler
pub mod Lifecycle
pub mod KeyCache
