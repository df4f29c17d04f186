-- ===== src/Tests.antt =====
-- The theorems at concrete inputs.
mod Tasks
mod Cycle
mod Locks
mod Validator
mod Scheduler
mod Relay
mod Persist
mod KeyCache
mod Shared
mod Webhook
mod Coverage
mod Review
mod Lifecycle
mod Engine
mod Answers
mod Conversation
