-- ===== src/Dashboard/Core.antt =====
-- The status of Bitcoin Core: `fetch_bitcoin_core_status`, with the template of the runtime status and
-- the cache of the start of the difficulty period.
use canary_mining.Common.{
  ℕ, ◌+◌, ◌*◌, ◌/◌, ◌<◌, ◌≡◌, ◌≢◌, ◌↔◌, refl, arith, Bool, true, false, not, Option, none, some,
  List, [], ◌∷◌, ◌++◌, retain, is_empty, is_some, if◌then◌else◌, nat_beq, Result, ok, err, map_err,
  ◌>>=◌, Bool-cases, Result-cases, inl, inr,
}
use mathlib.Core.Option
use canary_mining.Common.Text.Basic.{Text, codes, trim, join}
use canary_mining.Common.Float.{Float}
use canary_mining.Activity.Template.{
  TemplateStatusSnapshot, TemplateStatusSource, ipc_bootstrap, ipc_chain_tip, ipc_mempool,
  TemplateStatusKind, available,
}
use canary_mining.Rpc.Decode.{BitcoinCoreRpcError, unexpected_result}
use canary_mining.Rpc.Client.{
  RpcLib, BitcoinCoreRpc, BlockchainInfo, VerboseBlock, Answer, network_hashrate,
  network_difficulty, blockchain_info, block_hash, verbose_block,
}
use canary_mining.Dashboard.Template.{
  BlockTemplateStatus, cached_block_template_status, rpc_warning_text,
}
use canary_mining.Dashboard.Blocks.{same_height}
use canary_mining.Dashboard.Difficulty.{
  DifficultyAdjustmentStatus, difficulty_adjustment_interval_blocks,
  calculate_difficulty_adjustment,
}
pub mod Laws

pub record BitcoinCoreStatus (F : Type 0) : Type 0 where
  pub rpc_available : Bool
  pub rpc_warning : Option Text
  pub mining_ready : Bool
  pub network_hashrate : Option F
  pub network_difficulty : Option F
  pub difficulty_adjustment : Option (DifficultyAdjustmentStatus F)
  pub chain_height : Option ℕ
  pub sync_progress : Option F
  pub initial_block_download : Option Bool
  pub template : Option (BlockTemplateStatus F)

pub record DifficultyPeriodStartCache : Type 0 where
  pub height : Option ℕ
  pub timestamp : Option ℕ

unfoldable pub cached_difficulty_period_start_time : DifficultyPeriodStartCache → ℕ → Option ℕ
cached_difficulty_period_start_time cache period_start_height =
    if same_height cache.height (some period_start_height) then cache.timestamp else none

abbrev pub period_start_height : ℕ → ℕ
period_start_height chain_height =
    chain_height / difficulty_adjustment_interval_blocks * difficulty_adjustment_interval_blocks

-- What remains of the fetch, from the time of the block that starts the period, if there is one.
abbrev pub adjusted :
    (R : Float)
    → ℕ
    → ℕ
    → Option R.F
    → DifficultyPeriodStartCache
    → Option ℕ
    → DifficultyPeriodStartCache × Option (DifficultyAdjustmentStatus R.F)
adjusted R chain_height now difficulty cache none = (cache, none)
adjusted R chain_height now difficulty cache (some time) = (
  record { height = some (period_start_height chain_height); timestamp = some time },
  some (calculate_difficulty_adjustment R chain_height time now difficulty),
)

-- `fetch_difficulty_adjustment`, with the time of a block that a call in time finds by its height.
unfoldable pub fetch_difficulty_adjustment :
    (R : Float)
    → (ℕ → Option ℕ)
    → ℕ
    → ℕ
    → Option R.F
    → DifficultyPeriodStartCache
    → DifficultyPeriodStartCache × Option (DifficultyAdjustmentStatus R.F)
unfolding cached_difficulty_period_start_time
fetch_difficulty_adjustment R block_time chain_height now difficulty cache =
    elim (cached_difficulty_period_start_time cache (period_start_height chain_height)) [
      | some time ↦
          (cache, some (calculate_difficulty_adjustment R chain_height time now difficulty))
      | none ↦
          adjusted R chain_height now difficulty cache
            (block_time (period_start_height chain_height))
    ]

-- The calls that the status makes, each with its own timeout.
pub data StatusCall : Type 0 where
  chain_info network_hashps difficulty_now period_block : StatusCall

abbrev pub label : StatusCall → Text
label chain_info = codes "getblockchaininfo"
label network_hashps = codes "getnetworkhashps"
label difficulty_now = codes "getdifficulty"
label period_block = codes "getblock"

abbrev pub optional : {E T : Type 0} → Result E T → Option T
optional (ok value) = some value
optional (err e) = none

unfoldable pub rpc_with_timeout :
    {V T : Type 0}
    → (StatusCall → Bool)
    → StatusCall
    → Result (BitcoinCoreRpcError V) T
    → Result (BitcoinCoreRpcError V) T
rpc_with_timeout in_time call answer =
    if in_time call
    then answer
    else err (unexpected_result (label call ++ codes " timed out after 750ms"))

unfoldable pub optional_rpc_with_timeout :
    {V T : Type 0} → (StatusCall → Bool) → StatusCall → Result (BitcoinCoreRpcError V) T → Option T
unfolding rpc_with_timeout
optional_rpc_with_timeout in_time call answer = optional (rpc_with_timeout in_time call answer)

module _ (R : Float) (L : RpcLib R.F) (client : BitcoinCoreRpc)
    (as_str : L.reader.Value → Option Text)
    (as_array : L.reader.Value → Option (List L.reader.Value)) (in_time : StatusCall → Bool) where
  abbrev pub block_time : ℕ → Option ℕ
  block_time height =
      if in_time period_block
      then Option.map (λ block. block.time)
          (optional (do hash ← block_hash L client height; verbose_block L client hash))
      else none

  abbrev pub without_rpc :
      DifficultyPeriodStartCache
      → Bool × Option (BlockTemplateStatus R.F)
      → DifficultyPeriodStartCache × BitcoinCoreStatus R.F
  without_rpc cache (mining_ready, template) = (
    cache,
    record {
      rpc_available = false;
      rpc_warning = none;
      mining_ready = mining_ready;
      network_hashrate = none;
      network_difficulty = none;
      difficulty_adjustment = none;
      chain_height = none;
      sync_progress = none;
      initial_block_download = none;
      template = template;
    },
  )

  abbrev pub with_rpc :
      ℕ
      → DifficultyPeriodStartCache
      → Bool × Option (BlockTemplateStatus R.F)
      → BlockchainInfo R.F L.reader.Value
      → DifficultyPeriodStartCache × BitcoinCoreStatus R.F
  with_rpc now cache (mining_ready, template) chain =
      let hashrate = optional_rpc_with_timeout in_time network_hashps (network_hashrate L client) in
      let difficulty =
        optional_rpc_with_timeout in_time difficulty_now (network_difficulty L client) in
      let (cache, adjustment) =
        fetch_difficulty_adjustment R block_time chain.blocks now difficulty cache in
      (
        cache,
        record {
          rpc_available = true;
          rpc_warning = rpc_warning_text as_str as_array chain.warnings;
          mining_ready = if chain.initialblockdownload then false else mining_ready;
          network_hashrate = hashrate;
          network_difficulty = difficulty;
          difficulty_adjustment = adjustment;
          chain_height = some chain.blocks;
          sync_progress = some chain.verificationprogress;
          initial_block_download = some chain.initialblockdownload;
          template = if chain.initialblockdownload then none else template;
        },
      )

  abbrev pub status_of :
      ℕ
      → DifficultyPeriodStartCache
      → Bool × Option (BlockTemplateStatus R.F)
      → Answer L (BlockchainInfo R.F L.reader.Value)
      → DifficultyPeriodStartCache × BitcoinCoreStatus R.F
  status_of now cache cached (ok chain) = with_rpc now cache cached chain
  status_of now cache cached (err e) = without_rpc cache cached

  unfoldable pub fetch_bitcoin_core_status :
      ℕ
      → Option (TemplateStatusSnapshot R.F)
      → DifficultyPeriodStartCache
      → DifficultyPeriodStartCache × BitcoinCoreStatus R.F
  unfolding cached_block_template_status fetch_difficulty_adjustment optional_rpc_with_timeout
      rpc_with_timeout network_hashrate network_difficulty blockchain_info block_hash verbose_block
      rpc_warning_text
  fetch_bitcoin_core_status now snapshot cache =
      status_of now cache (cached_block_template_status snapshot)
        (rpc_with_timeout in_time chain_info (blockchain_info L client))
