-- ===== src/Central/Matchmaking.antt =====
-- Central/internal/matchmaking/matchmaking.go: the choice of a chat server, and the protocol
-- that brings two clients together.
pub mod Optimal
pub mod Session
pub mod Rerouting
