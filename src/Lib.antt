-- ===== src/Lib.antt =====
-- Canary Mining: a Stratum V2 solo mining server for Bitcoin Core, with a dashboard for its operator.
--
-- The parts and how they interact. The pool (vendor/pool_sv2) accepts miners and tells a registry of
-- sessions (vendor/pool_sv2/src/lib/miner_stats.rs) about channels, shares and blocks. The registry
-- keeps the live figures and sends an event for each change to a channel that does not lose or reorder
-- them. A writer (src/history.rs) takes the events from it, works out the id of the miner from the
-- user identity (src/miner_identity.rs, with the address check of src/bitcoin_address.rs), and keeps one
-- row to a miner in a table. The dashboard reads the registry and the table, and deletes miners that
-- are offline. The pool keeps the jobs of each channel in a bounded store
-- (vendor/pool_sv2/src/lib/channel_manager/job_store.rs). The configuration is src/app_config.rs. The
-- program (src/main.rs) reads it, loads or makes the keys (src/keys.rs), builds the configuration of the
-- pool (src/pool_config.rs) where the socket of Bitcoin Core exists, and starts the pool and the
-- dashboard. The dashboard (src/ui.rs) asks Bitcoin Core over RPC (src/bitcoin_core_rpc.rs) and the pool
-- over its monitoring API, and shares a runtime status with the reader of templates
-- (vendor/bitcoin-core-sv2/src/template_runtime_status.rs).
--
-- Which file models which part:
-- - Config: src/app_config.rs. `read` is `AppConfig::read`, `validate` and `from_str` as named there;
--   the file system and the TOML parser are arguments. Paths and socket addresses are texts.
-- - Address: src/bitcoin_address.rs. The address parser of the crate bitcoin is the record AddressLib.
-- - Identity: `parse_miner_identity` of src/miner_identity.rs, and `miner_id` and
--   `miner_id_from_identity` of src/history.rs. Identity/Forms describes the accepted forms apart from
--   the code.
-- - Stats: `MinerStatsRegistry`. A call takes the time of the clock, and returns the new registry and
--   the events that it sends. Stats/Sessions has the snapshots, Stats/Calls the sequences of calls,
--   Stats/Cells what they do to one session. A call that holds the lock and then sends is one step, so
--   threads interleave between calls only.
-- - History: `MinerHistory`. History/Rows has the table `known_miners` and the SQL statements as
--   functions on it, History/Writer the function `apply_event`, the writer's loop and its map of open
--   sessions, History/Listing the query of the dashboard, History/Ranked its order, History/Between and
--   History/Lifecycle one session from its opening to its close.
-- - Jobs: `BoundedJobStore`. The trait `Job` of the library channels_sv2 is the record Job.
-- - Activity: Activity/Counting has the counter of downstreams, as functions and as steps of threads;
--   Activity/Waiting `wait_for_active_downstream` beside those threads; Activity/Template the template.
-- - Rpc: `BitcoinCoreRpc`. Rpc/Locations has the addresses and paths, Rpc/Decode the reading of a
--   response, Rpc/Client the calls. HTTP, the files and serde's readers are the record RpcLib.
-- - Keys: `AuthorityKeys`, over a disk whose calls take and return its state. PoolConfig:
--   `build_pool_config` and `resolve_ipc_socket_path`; PoolConfig/Socket the pool's own choice of the
--   socket (vendor/pool_sv2/src/lib/mod.rs), with `Path::extension` of a Unix path.
-- - Program: Program/Startup has `run` until the pool starts, and `check`; Program/Shutdown
--   `handle_pool_result`; Program/Interrupt `wait_for_stdin_interrupt`; Program/Terminal the mode of the
--   terminal and the signals.
-- - Dashboard: src/ui.rs. Dashboard/Sessions, Dashboard/Workers and Dashboard/Building have
--   `build_miner_workers` and what it calls, Dashboard/Difficulty has `calculate_difficulty_adjustment`,
--   Dashboard/Status `mining_status_from_parts` and `api_health`, Dashboard/Seen `merge_seen_miners`,
--   Dashboard/Monitoring `fetch_current_miners`, Dashboard/Core `fetch_bitcoin_core_status` with
--   Dashboard/Template, Dashboard/Blocks `recent_blocks_response`, Dashboard/Pools `detect_block_pool`,
--   Dashboard/Rates `exchange_rates_response`, Dashboard/Overview `api_status`, Dashboard/Endpoints the
--   state of the dashboard and its small endpoints, and Dashboard/Routes the static files and the
--   router. Dashboard/Picks and Dashboard/Final are about `finalize_worker`, Dashboard/Totals,
--   Dashboard/Ordering and Dashboard/Listed about the workers as a whole. A hash map's order of
--   iteration, which is not specified, is that of its list. One request is one step on a cache;
--   whether a call ends within its timeout is a parameter.
-- - TestMiner: TestMiner/Work has `MinerState` and `handle_frame`, TestMiner/Search `mine_worker`,
--   TestMiner/Main the loop of `run_test_miner` over the events of its `select`, TestMiner/Run what
--   comes before it and the start of the workers, and TestMiner/Options the configuration and the
--   options (src/bin/canary-mining-test-miner.rs). How the two seconds end that `stop_workers` waits for
--   the workers comes with each event: whether their task ended, was cancelled, failed or goes on.
-- - Common: texts as lists of code points, hash maps as association lists, sorting, the integers of
--   SQLite, and an interface for floating-point numbers. Tests: the theorems at concrete inputs.
--
-- Numbers are natural numbers. A count of shares wraps at 2^64, as in a release build; a conversion
-- between `u64` and `i64` wraps, and `try_i64` fails beyond 2^63 - 1. `saturating_sub` is the
-- subtraction of natural numbers. A floating-point type and its operations are a parameter. Every loop
-- is over a list, but for two that run on fuel: the decimal digits of a `u64`, twenty, which
-- `value-decimal` shows to be enough below 10^20, and the loop over the missing recent blocks, seven
-- rounds, since there are at most six. A hexadecimal text is one of ASCII characters, as Bitcoin Core and
-- the monitoring write it.
--
-- Not modelled: SQLite (an initialized file takes every statement), HTTP, the file system, Bitcoin
-- Core, the cryptography, the codec of the pool's messages, the router of axum, and the copies of the
-- libraries under vendor apart from the files named above. Of src/main.rs the parsing of the command
-- line and the log. The bytes of the static files: a response names its file.
mod Common
pub mod Config
pub mod Address
pub mod Identity
pub mod Stats
pub mod History
pub mod Jobs
pub mod Activity
pub mod Rpc
pub mod Keys
pub mod PoolConfig
pub mod Dashboard
pub mod Program
pub mod TestMiner
mod Tests
