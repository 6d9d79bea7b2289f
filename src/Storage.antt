-- ===== src/Storage.antt =====
-- The part of internal/storage that decides: the states of jobs and the removal of what they own.
pub mod Jobs
pub mod Table
pub mod Queries
pub mod Claims
pub mod Purge
pub mod Rows
pub mod Decimal
pub mod Base64
pub mod Paging
