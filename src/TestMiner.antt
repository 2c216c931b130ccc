-- ===== src/TestMiner.antt =====
-- The test miner: its state and work, its search for a nonce, and its options. src/test_miner.rs and
-- bin/canary-mining-test-miner.rs.
pub mod Work
pub mod Search
pub mod Options
pub mod Partition
pub mod Outcome
pub mod Main
pub mod Run
pub mod Loop
pub mod Stops
pub mod Shares
pub mod Sized
pub mod Accepted
