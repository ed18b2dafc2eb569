-- ===== src/Shared.antt =====
-- packages/shared: the records that the server and the web client exchange.
pub mod Common
pub mod Entities
pub mod Conversation
