-- ===== src/Central.antt =====
-- The central server: Central/internal.
pub mod Slices
pub mod ClientStore
pub mod ServiceStore
pub mod Responses
pub mod ClientApi
pub mod ServiceApi
pub mod Matchmaking
pub mod History
mod Tests
