-- ===== src/Storage.antt =====
-- server/storage: the interface `Repository` and its implementation in memory.
pub mod Interface
pub mod Memory
pub mod Sql
