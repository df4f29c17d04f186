-- ===== src/Engine.antt =====
-- bot/orchestrator/engine: an answer of a language model becomes edits, and these change files.
pub mod Similarity
pub mod Match
pub mod FilePath
pub mod Apply
pub mod Json
pub mod Text
pub mod Parser
pub mod Scope
pub mod Blocks
