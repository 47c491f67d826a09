-- ===== src/Tests.antt =====
-- The theorems at concrete inputs.
mod Samples
mod Wire
mod Server
mod Commands
mod Database
mod Access
mod Simulation
mod Concurrency
mod Edge
mod E2e
mod Start
mod Rounds
