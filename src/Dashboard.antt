-- ===== src/Dashboard.antt =====
-- The dashboard: src/ui.rs.
pub mod Sessions
pub mod Workers
pub mod Building
pub mod Totals
pub mod Ordering
pub mod Listed
pub mod Picks
pub mod Final
pub mod Difficulty
pub mod Status
pub mod Seen
pub mod Pools
pub mod Blocks
pub mod Rates
pub mod Template
pub mod Core
pub mod Monitoring
pub mod Endpoints
pub mod Overview
pub mod Routes
pub mod Routing
