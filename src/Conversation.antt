-- ===== src/Conversation.antt =====
-- bot/conversation: what the bot remembers of a talk.
pub mod History
pub mod Router
