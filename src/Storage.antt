-- ===== src/Storage.antt =====
-- packages/storage: filters, sorting, updates, indexes and their planner, the log and what it holds.
pub mod Errors
pub mod Compare
pub mod Ordering
pub mod Predicate
pub mod Filter
pub mod Sort
pub mod IndexValue
pub mod FieldIndex
pub mod Planner
pub mod Wal
pub mod IndexSpec
pub mod Operations
pub mod Update
