-- ===== src/Rpc.antt =====
-- The client of Bitcoin Core's RPC: bitcoin_core_rpc.rs. The JSON reader and the HTTP client are
-- parameters.
pub mod Locations
pub mod Decode
pub mod Client
pub mod Laws
