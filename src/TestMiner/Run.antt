-- ===== src/TestMiner/Run.antt =====
-- From the connection to the return: `run_test_miner`, `setup_connection` and `spawn_mining_workers`.
use canary_mining.Common.{
  ℕ, zero, suc, ◌+◌, ◌-◌, ◌%◌, ◌^◌, Bool, Option, none, some, List, [], ◌∷◌, ◌++◌, map,
  if◌then◌else◌, ltb, Result, ok, err,
}
use canary_mining.Common.Int64.{ℤ, pos, negsuc}
use canary_mining.Common.Text.Basic.{Text, codes}
use canary_mining.TestMiner.Work.{MiningWork, TargetLib, new_state}
use canary_mining.TestMiner.Search.{Search, mine_worker}
use canary_mining.TestMiner.Options.{TestMinerConfig}
use canary_mining.TestMiner.Main.{
  SetupResponse, setup_success, setup_error, unexpected_response, Connecting, connect_timeout,
  connect_failed, noise_failed, connected, MinerEvent, MinerAction, setup, open_message, Miner,
  LoopStep, worker_count, open_channel, fail, loop,
}

module _ {F P : Type 0} (L : TargetLib) (config : TestMinerConfig F P) where
  unfoldable pub setup_connection : Option SetupResponse → Result Text Unit
  setup_connection none = err (codes "SV2 connection closed before SetupConnection response")
  setup_connection (some setup_success) = ok tt
  setup_connection (some (setup_error code)) = err (codes "SetupConnectionError: " ++ code)
  setup_connection (some unexpected_response) = err (codes "unexpected setup response")

  abbrev pub fresh_miner : Miner F L.Target
  fresh_miner = record {
    state = new_state config.user_identity config.nominal_hashrate config.share_mode;
    current_workers = none;
    accepted_blocks = 0;
  }

  abbrev pub setup_message : MinerAction F L.Target
  setup_message = setup (record {
    min_version = 2;
    max_version = 2;
    flags = 1;
    endpoint = config.pool_address;
    vendor = codes "canary";
    hardware_version = codes "test-miner";
    firmware = codes "dev";
    device_id = config.device_id;
  })

  abbrev pub after_setup :
      Result Text Unit → Result Text Unit → List MinerEvent → LoopStep F L.Target
  after_setup (err reason) sent events = fail fresh_miner reason
  after_setup (ok u) (err reason) events = fail fresh_miner reason
  after_setup (ok u) (ok v) events =
      let rest = loop L config fresh_miner events in
      record rest { actions = open_message (open_channel fresh_miner.state) ∷ rest.actions }

  abbrev pub after_connect :
      Connecting → Result Text Unit → Result Text Unit → List MinerEvent → LoopStep F L.Target
  after_connect connect_timeout sent opened events =
      fail fresh_miner (codes "timed out connecting to SV2 pool")
  after_connect connect_failed sent opened events = fail fresh_miner (codes "failed to connect")
  after_connect noise_failed sent opened events =
      fail fresh_miner (codes "failed to establish SV2 Noise connection")
  after_connect (connected response) (err reason) opened events = fail fresh_miner reason
  after_connect (connected response) (ok u) opened events =
      let rest = after_setup (setup_connection response) opened events in
      record rest { actions = setup_message ∷ rest.actions }

  -- From the connection to the return; the results of sending the first two messages are arguments.
  unfoldable pub run_test_miner :
      Connecting → Result Text Unit → Result Text Unit → List MinerEvent → LoopStep F L.Target
  unfolding setup_connection loop fail open_channel
  run_test_miner connecting sent opened events = after_connect connecting sent opened events

-- Seconds since the epoch, of a clock that may stand before it.
abbrev pub current_ntime : Option ℕ → ℕ
current_ntime none = 0
current_ntime (some since) = since % 2 ^ 32

-- `version as i32`.
abbrev pub as_i32 : ℕ → ℤ
as_i32 n = if ltb n (2 ^ 31) then pos n else negsuc (2 ^ 32 - n - 1)

pub record Header : Type 0 where
  pub version : ℤ
  pub prev_blockhash : List ℕ
  pub merkle_root : List ℕ
  pub time : ℕ
  pub bits : ℕ
  pub nonce : ℕ

unfoldable pub build_header : {T : Type 0} → MiningWork T → ℕ → ℕ → Header
build_header work nonce ntime = record {
  version = as_i32 work.version;
  prev_blockhash = work.prev_hash;
  merkle_root = work.merkle_root;
  time = ntime;
  bits = work.nbits;
  nonce = nonce;
}

abbrev pub indices : ℕ → ℕ → List ℕ
indices index zero = []
indices index (suc n) = index ∷ indices (index + 1) n

-- The workers on one work, by what each finds in the flag; whether a header meets the target is the
-- library's.
unfoldable pub spawn_mining_workers :
    {T : Type 0}
    → (T → Header → Bool)
    → MiningWork T
    → ℕ
    → (ℕ → Bool)
    → (ℕ → List Bool)
    → List Search
unfolding build_header mine_worker
spawn_mining_workers is_met_by work cores taken loads =
    let workers = worker_count cores in
    let met : ℕ → ℕ → Bool = λ nonce ntime. is_met_by work.target (build_header work nonce ntime) in
    map (λ index. mine_worker (taken index) met work.ntime index workers (loads index))
      (indices 0 workers)
