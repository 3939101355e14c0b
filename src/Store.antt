-- ===== src/Store.antt =====
-- The SQLite tables of internal/store and the operations on them. A table is the list of its rows
-- in the order of insertion; a statement has the meaning that SQL gives it. A time is a number of
-- seconds, passed in where the source calls `time.Now()`.
pub mod Users
pub mod Sessions
pub mod Limits
pub mod Valid
pub mod Machines
pub mod History
pub mod Retained
