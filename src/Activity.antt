-- ===== src/Activity.antt =====
-- The count of active downstreams and the template status, which the pool, the reader of templates and
-- the dashboard share: vendor/bitcoin-core-sv2/src/template_runtime_status.rs.
pub mod Counting
pub mod Waiting
pub mod Template
