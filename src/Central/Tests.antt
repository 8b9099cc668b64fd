-- ===== src/Central/Tests.antt =====
-- Central's theorems at concrete inputs, and runs of its operations.
mod Stores
mod Optimal
mod Api
mod Session
mod Rerouting
mod History
