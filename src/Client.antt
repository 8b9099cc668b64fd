-- ===== src/Client.antt =====
-- Client: the chat client.
pub mod Runes
pub mod Messages
pub mod Requests
mod Tests
pub mod Runner
pub mod Chat
pub mod Startup
