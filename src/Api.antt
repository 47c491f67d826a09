-- ===== src/Api.antt =====
-- server/api: the authentication middleware and the HTTP handlers.
pub mod Auth
pub mod Requests
pub mod Answers
pub mod Handlers
pub mod Effects
pub mod Security
pub mod Routes
pub mod Access
pub mod Interleaved
pub mod Isolation
pub mod Sleep
pub mod Failures
