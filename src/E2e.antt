-- ===== src/E2e.antt =====
-- The end-to-end test of tools/test_runner/run_e2e.go.
pub mod Runner
pub mod Stages
pub mod Passes
pub mod OnServer
pub mod Replies
pub mod Servers
pub mod Answered
