-- ===== src/Relay.antt =====
-- stream-relay: chunks of a session's output go to its subscribers.
pub mod Hub
pub mod Persist
