-- ===== src/Server.antt =====
-- Server: the chat server.
pub mod Chat
pub mod Heartbeat
mod Tests
