-- ===== src/History.antt =====
-- The known miners: history.rs. The table of SQLite is a map from the miner id to the row; a
-- statement is its effect on the table, and no statement fails.
pub mod Rows
pub mod Writer
pub mod Laws
pub mod Invariant
pub mod Listing
pub mod Ranked
pub mod Order
pub mod Deletion
pub mod Store
pub mod Tracking
pub mod Pipeline
pub mod Between
pub mod Lifecycle
