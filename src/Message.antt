-- ===== src/Message.antt =====
-- src/message_handler.c: from JSON texts to messages, and from messages to calls of the cache and
-- of the server.
pub mod Model
pub mod Types
pub mod Timestamp
pub mod Fields
pub mod Parse
pub mod Requirements
pub mod WellFormed
pub mod Process
pub mod Lossless
pub mod Tests
