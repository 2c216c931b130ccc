-- ===== src/Dashboard/Overview.antt =====
-- The status that the dashboard asks for: `api_status`, `fetch_connected_miners` and
-- `fetch_miner_workers`. A request reads the clock once here.
use canary_mining.Common.{
  ℕ, Bool, not, Option, none, some, List, [], Result, map, if◌then◌else◌, bool_beq,
}
use canary_mining.Common.Json.{Json}
use canary_mining.Common.Float.{Float}
use canary_mining.Common.Sort.{sort}
use canary_mining.Common.Text.Basic.{Text, codes, text_beq}
use canary_mining.Config.{default_pool_payout_address}
use canary_mining.Address.{AddressLib}
use canary_mining.PoolConfig.{PoolLib, resolve_ipc_socket_path}
use canary_mining.Activity.Template.{TemplateStatusSnapshot}
use canary_mining.Stats.Sessions.{MinerSessionSnapshot}
use canary_mining.History.Listing.{KnownMiner, text_lt}
use canary_mining.Rpc.Decode.{BitcoinCoreRpcError}
use canary_mining.Rpc.Client.{RpcLib}
use canary_mining.Dashboard.Sessions.{MinerRow, unwrap_or}
use canary_mining.Dashboard.Seen.{merge_seen_miners}
use canary_mining.Dashboard.Workers.{MinerWorker}
use canary_mining.Dashboard.Building.{build_miner_workers}
use canary_mining.Dashboard.Status.{
  MiningRuntimeStatus, MiningStatusResponse, mining_status_from_parts,
}
use canary_mining.Dashboard.Pools.{PoolAssets}
use canary_mining.Dashboard.Blocks.{
  BlockTimelineItem, RecentBlocksCache, Timed, fetch_recent_block, recent_blocks_response,
}
use canary_mining.Dashboard.Core.{
  BitcoinCoreStatus, DifficultyPeriodStartCache, StatusCall, fetch_bitcoin_core_status,
}
use canary_mining.Dashboard.Monitoring.{fetch_monitoring_json, fetch_current_miners}
use canary_mining.Dashboard.Endpoints.{UiState, UiConfigSummary, MinerSetupSummary}
pub mod Laws

pub record StatusResponse (F V : Type 0) : Type 0 where
  pub server_time : ℕ
  pub config : UiConfigSummary
  pub miner_setup : MinerSetupSummary
  pub monitoring : Option V
  pub mining : MiningStatusResponse
  pub bitcoin_core : BitcoinCoreStatus F
  pub recent_blocks : List BlockTimelineItem
  pub connected_miners : List (MinerRow F)
  pub miner_workers : List (MinerWorker F)

-- Connected first, then by label and address.
unfoldable pub shown_before : {F : Type 0} → MinerRow F → MinerRow F → Bool
shown_before left right =
    if not (bool_beq left.connected right.connected)
    then left.connected
    else if text_beq left.label right.label
    then not (text_lt right.payout_address left.payout_address)
    else text_lt left.label right.label

unfoldable pub sorted_miner_rows : {F : Type 0} → List (MinerRow F) → List (MinerRow F)
unfolding sort shown_before
sorted_miner_rows miners = sort shown_before miners

-- `fetch_connected_miners`, with the rows that the monitoring gives: the miners seen, and what is shown.
unfoldable pub fetch_connected_miners :
    (R : Float)
    → List (Text × MinerRow R.F)
    → Option (List (MinerRow R.F))
    → ℕ
    → List (Text × MinerRow R.F) × List (MinerRow R.F)
unfolding merge_seen_miners sorted_miner_rows
fetch_connected_miners R seen current now =
    let seen = merge_seen_miners R seen current now in
    (seen, sorted_miner_rows (map (λ entry. entry.1) seen))

-- The libraries that a request calls.
pub record Libraries (R : Float) : Type 1 where
  pub addresses : AddressLib
  pub pool : PoolLib
  pub json : Json R.F
  pub rpc : RpcLib R.F
  pub assets : PoolAssets
  pub difficulty_float : List ℕ → R.F
  pub as_str : rpc.reader.Value → Option Text
  pub as_array : rpc.reader.Value → Option (List rpc.reader.Value)

module _ (R : Float) (S : Libraries R) where
  -- What a request finds: the monitoring, the calls that end in time, the files, the status that the
  -- pool and the reader of templates share, the registry, the known miners unless their reading fails,
  -- and the time.
  pub record Moment : Type 0 where
    pub http_get : Text → Option S.json.Value
    pub call_in_time : StatusCall → Bool
    pub block_in_time : ℕ → Bool
    pub exists : Text → Bool
    pub runtime : MiningRuntimeStatus
    pub snapshot : Option (TemplateStatusSnapshot R.F)
    pub stats : List (MinerSessionSnapshot R.F)
    pub known : Option (List (KnownMiner R.F))
    pub now : ℕ

  -- The block at a height, as Bitcoin Core answers it for this state.
  abbrev pub block_at :
      Moment
      → UiState R.F
      → ℕ
      → Result (Timed (BitcoinCoreRpcError S.rpc.reader.Value)) BlockTimelineItem
  block_at M s =
      fetch_recent_block R S.rpc s.bitcoin_core_rpc S.assets
        (default_pool_payout_address s.app_config) M.block_in_time

  abbrev pub core_status : Moment → UiState R.F → DifficultyPeriodStartCache × BitcoinCoreStatus R.F
  core_status M s =
      fetch_bitcoin_core_status R S.rpc s.bitcoin_core_rpc S.as_str S.as_array M.call_in_time M.now
        M.snapshot s.difficulty_period_start

  unfoldable pub mining_status_response : Moment → UiState R.F → MiningStatusResponse
  unfolding mining_status_from_parts resolve_ipc_socket_path
  mining_status_response M s =
      mining_status_from_parts M.exists M.runtime (resolve_ipc_socket_path S.pool s.app_config)

  unfoldable pub fetch_miner_workers :
      Moment → UiState R.F → List (MinerRow R.F) → List (MinerWorker R.F)
  unfolding build_miner_workers
  fetch_miner_workers M s rows =
      build_miner_workers S.addresses R s.network M.now (some rows) M.stats (unwrap_or [] M.known)

  -- The miners seen, and those shown.
  abbrev pub connected : Moment → UiState R.F → List (Text × MinerRow R.F) × List (MinerRow R.F)
  connected M s =
      fetch_connected_miners R s.seen_miners
        (fetch_current_miners R S.json S.addresses S.difficulty_float M.http_get s.metrics_base_url
          s.network)
        M.now

  abbrev pub state_after : Moment → UiState R.F → RecentBlocksCache → UiState R.F
  state_after M s cache = record s {
    recent_blocks = cache;
    difficulty_period_start = (core_status M s).0;
    seen_miners = (connected M s).0;
  }

  abbrev pub response_of :
      Moment → UiState R.F → List BlockTimelineItem → StatusResponse R.F S.json.Value
  response_of M s blocks = record {
    server_time = M.now;
    config = s.config;
    miner_setup = s.miner_setup;
    monitoring =
        fetch_monitoring_json R S.json S.addresses S.difficulty_float M.http_get s.metrics_base_url
          (codes "api/v1/global");
    mining = mining_status_response M s;
    bitcoin_core = (core_status M s).1;
    recent_blocks = blocks;
    connected_miners = (connected M s).1;
    miner_workers = fetch_miner_workers M s (connected M s).1;
  }

  -- The state and the response, once the recent blocks are there.
  abbrev pub overview :
      Moment
      → UiState R.F
      → Option (RecentBlocksCache × List BlockTimelineItem)
      → Option (UiState R.F × StatusResponse R.F S.json.Value)
  overview M s none = none
  overview M s (some (cache, blocks)) = some (state_after M s cache, response_of M s blocks)

  -- `api_status`: the new state and the response; nothing only if the fuel for the blocks ran out.
  unfoldable pub api_status :
      Moment → UiState R.F → Option (UiState R.F × StatusResponse R.F S.json.Value)
  unfolding fetch_monitoring_json mining_status_response fetch_bitcoin_core_status
      recent_blocks_response fetch_recent_block fetch_current_miners fetch_connected_miners
      fetch_miner_workers
  api_status M s =
      overview M s
        (recent_blocks_response (block_at M s) s.recent_blocks (core_status M s).1.chain_height)
