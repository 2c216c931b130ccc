-- ===== src/PoolConfig.antt =====
-- The configuration of the pool, from that of the program: pool_config.rs. The descriptor of the
-- coinbase reward and the default place of the IPC socket are parameters, from the library
-- stratum_apps.
use canary_mining.Common.{
  ℕ, Option, none, some, List, [], ◌++◌, Result, ok, err, map_err, ◌>>=◌, ◌≡◌, ◌↔◌, refl, ◌∙◌,
  arith, >>=-eq-ok, map_err-eq-ok, ap, sym, Result-cases, inl, inr,
}
use mathlib.Core.Option
use canary_mining.Common.Text.Basic.{Text, codes, strip_prefix}
use canary_mining.Config.{
  Network, mainnet, testnet4, signet, regtest, AppConfig, default_pool_payout_address,
}
use canary_mining.Keys.{AuthorityKeys}
pub mod Socket
pub mod Laws

-- `tp_type::BitcoinNetwork`.
pub data TemplateNetwork : Type 0 where
  template_mainnet template_testnet4 template_signet template_regtest : TemplateNetwork

unfoldable pub template_network : Network → TemplateNetwork
template_network mainnet = template_mainnet
template_network testnet4 = template_testnet4
template_network signet = template_signet
template_network regtest = template_regtest

pub record PoolLib : Type 1 where
  pub Script : Type 0
  pub from_descriptor : Text → Result Text Script
  pub default_ipc_socket : TemplateNetwork → Option Text → Option Text

pub record PoolConfigError : Type 0 where
  pub address : Text
  pub message : Text

pub record ConnectionConfig : Type 0 where
  pub listen_address : Text
  pub cert_validity_sec : ℕ
  pub signature : Text

-- `TemplateProviderType::BitcoinCoreIpc`.
pub record BitcoinCoreIpc : Type 0 where
  pub network : TemplateNetwork
  pub data_dir : Option Text
  pub fee_threshold : ℕ
  pub min_interval : ℕ

-- `PoolConfig`, by the arguments of its constructor; the lists of extensions are empty, and the last
-- argument is nothing.
pub record PoolConfig (F P S Script : Type 0) : Type 0 where
  pub connection : ConnectionConfig
  pub template_provider : BitcoinCoreIpc
  pub authority : AuthorityKeys P S
  pub coinbase_reward_script : Script
  pub shares_per_minute : F
  pub share_batch_size : ℕ
  pub server_id : ℕ
  pub supported_extensions : List ℕ
  pub required_extensions : List ℕ
  pub monitoring_address : Option Text
  pub monitoring_cache_refresh_secs : Option ℕ

abbrev pub or_itself : Text → Option Text → Text
or_itself path none = path
or_itself path (some rest) = rest

unfoldable pub normalize_ipc_socket_path : Text → Text
normalize_ipc_socket_path path = or_itself path (strip_prefix (codes "unix:") path)

-- The socket that is given, or else the second argument.
abbrev pub socket_or : Option Text → Option Text → Option Text
socket_or default none = default
socket_or default (some path) = some (normalize_ipc_socket_path path)

module _ (B : PoolLib) where
  abbrev pub coinbase_script : Text → Result PoolConfigError B.Script
  coinbase_script address =
      map_err (λ source. record { address = address; message = source })
        (B.from_descriptor (codes "addr(" ++ (address ++ codes ")")))

  -- The configuration with the script of the reward.
  abbrev pub pool_of :
      {F P S : Type 0} → AppConfig F → AuthorityKeys P S → B.Script → PoolConfig F P S B.Script
  pool_of config keys script = record {
    connection = record {
      listen_address = config.sv2.listen_address;
      cert_validity_sec = config.cert_validity_sec;
      signature = config.pool_signature;
    };
    template_provider = record {
      network = template_network config.network;
      data_dir = socket_or config.bitcoin_core.data_dir config.bitcoin_core.ipc_socket_path;
      fee_threshold = config.bitcoin_core.fee_threshold;
      min_interval = config.bitcoin_core.min_interval;
    };
    authority = keys;
    coinbase_reward_script = script;
    shares_per_minute = config.shares_per_minute;
    share_batch_size = config.share_batch_size;
    server_id = config.server_id;
    supported_extensions = [];
    required_extensions = [];
    monitoring_address = config.metrics.listen_address;
    monitoring_cache_refresh_secs = some config.metrics.cache_refresh_secs;
  }

  unfoldable pub build_pool_config :
      {F P S : Type 0}
      → AppConfig F
      → AuthorityKeys P S
      → Result PoolConfigError (PoolConfig F P S B.Script)
  unfolding default_pool_payout_address template_network normalize_ipc_socket_path
  build_pool_config config keys = do
    script ← coinbase_script (default_pool_payout_address config)
    ok (pool_of config keys script)

  unfoldable pub resolve_ipc_socket_path : {F : Type 0} → AppConfig F → Option Text
  unfolding template_network normalize_ipc_socket_path
  resolve_ipc_socket_path config =
      socket_or
        (B.default_ipc_socket (template_network config.network) config.bitcoin_core.data_dir)
        config.bitcoin_core.ipc_socket_path
