-- ===== src/Storage/Sql.antt =====
-- `SQLRepository` of server/storage/sql_repository.go: its tables as lists of rows in the order of
-- their ids, and each statement as a function on them.
pub mod Commands
pub mod Delivery
pub mod Unique
pub mod Order
pub mod Tables
pub mod Queries
pub mod Repository
pub mod Atomic
pub mod Contents
pub mod Agrees
pub mod Messages
pub mod Newest
pub mod Histories
pub mod Listing
pub mod Fetches
pub mod Alone
pub mod Overlap
pub mod Twice
