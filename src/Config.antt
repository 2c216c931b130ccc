-- ===== src/Config.antt =====
-- The configuration: app_config.rs. Paths and socket addresses are texts; the TOML parser and the
-- file system are parameters.
pub mod Checks
use canary_mining.Common.{
  ℕ, Bool, true, false, ◌||◌, Option, none, some, ◌≡◌, if◌then◌else◌, ◌==◌, nat_eq, Result, ok, err,
  ◌>>=◌, map_err,
}
use canary_mining.Common.Text.Basic.{Text, codes, text_eq, text_beq}
use canary_mining.Common.Float.{Float, float_zero}

pub data Network : Type 0 where
  mainnet testnet4 signet regtest : Network

-- `Display for Network`.
unfoldable pub display : Network → Text
display mainnet = codes "mainnet"
display testnet4 = codes "testnet4"
display signet = codes "signet"
display regtest = codes "regtest"

pub record BitcoinCoreConfig : Type 0 where
  pub data_dir : Option Text
  pub ipc_socket_path : Option Text
  pub rpc_url : Option Text
  pub rpc_cookie_path : Option Text
  pub fee_threshold : ℕ
  pub min_interval : ℕ

pub record Sv2Config : Type 0 where
  pub listen_address : Text

pub record MetricsConfig : Type 0 where
  pub listen_address : Option Text
  pub cache_refresh_secs : ℕ

pub record UiConfig : Type 0 where
  pub enabled : Bool
  pub listen_address : Text

pub record AppConfig (F : Type 0) : Type 0 where
  pub network : Network
  pub data_dir : Text
  pub bitcoin_core : BitcoinCoreConfig
  pub sv2 : Sv2Config
  pub metrics : MetricsConfig
  pub ui : UiConfig
  pub shares_per_minute : F
  pub share_batch_size : ℕ
  pub cert_validity_sec : ℕ
  pub pool_signature : Text
  pub server_id : ℕ

-- `ConfigError`; `read` and `parse` carry the path and the source's message.
pub data ConfigError : Type 0 where
  read_error : Text → Text → ConfigError
  parse_error : Text → Text → ConfigError
  invalid_network : Text → ConfigError
  invalid_shares_per_minute : ConfigError
  invalid_share_batch_size : ConfigError

-- `FromStr for Network`.
unfoldable pub from_str : Text → Result ConfigError Network
from_str value =
    if value == codes "mainnet"
    then ok mainnet
    else if value == codes "testnet4"
    then ok testnet4
    else if value == codes "signet"
    then ok signet
    else if value == codes "regtest"
    then ok regtest
    else err (invalid_network value)

unfoldable pub validate : (R : Float) → AppConfig R.F → Result ConfigError (Unit {0})
validate R config =
    if R.le config.shares_per_minute (float_zero R)
    then err invalid_shares_per_minute
    else if config.share_batch_size == 0
    then err invalid_share_batch_size
    else ok tt

-- `AppConfig::read`, with the file system and the parser as arguments.
unfoldable pub read :
    (R : Float)
    → (Text → Result Text Text)
    → (Text → Result Text (AppConfig R.F))
    → Text
    → Result ConfigError (AppConfig R.F)
read R read_to_string from_toml path = do
  raw ← map_err (read_error path) (read_to_string path)
  config ← map_err (parse_error path) (from_toml raw)
  _ ← validate R config
  ok config

abbrev pub default_mainnet_pool_payout_address : Text
default_mainnet_pool_payout_address = codes "bc1qvzvkjn4q3nszqxrv3nraga2r822xjty3ykvkuw"

abbrev pub default_testnet_pool_payout_address : Text
default_testnet_pool_payout_address =
    codes "tb1qrp33g0q5c5txsp9arysrx4k6zdkfs4nce4xj0gdcccefvpysxf3q0sl5k7"

abbrev pub default_regtest_pool_payout_address : Text
default_regtest_pool_payout_address = codes "bcrt1q2nfxmhd4n3c8834pj72xagvyr9gl57n5r94fsl"

unfoldable pub network_payout_address : Network → Text
network_payout_address mainnet = default_mainnet_pool_payout_address
network_payout_address testnet4 = default_testnet_pool_payout_address
network_payout_address signet = default_testnet_pool_payout_address
network_payout_address regtest = default_regtest_pool_payout_address

unfoldable pub default_pool_payout_address : {F : Type 0} → AppConfig F → Text
unfolding network_payout_address
default_pool_payout_address config = network_payout_address config.network

-- The file of `examples/` that `example` gives.
unfoldable pub example : Network → Text
example regtest = codes "regtest.toml"
example mainnet = codes "mainnet.toml"
example testnet4 = codes "testnet4.toml"
example signet = codes "signet.toml"

-- `Default for BitcoinCoreConfig`, and the other defaults of the fields.
abbrev pub default_bitcoin_core : BitcoinCoreConfig
default_bitcoin_core = record {
  data_dir = none;
  ipc_socket_path = none;
  rpc_url = none;
  rpc_cookie_path = none;
  fee_threshold = 100_000;
  min_interval = 60;
}

abbrev pub default_sv2 : Sv2Config
default_sv2 = record { listen_address = codes "0.0.0.0:3333" }

abbrev pub default_metrics : MetricsConfig
default_metrics = record { listen_address = none; cache_refresh_secs = 15 }

abbrev pub default_ui : UiConfig
default_ui = record { enabled = false; listen_address = codes "127.0.0.1:8080" }

-- A file that gives only the network: every other field has its default.
unfoldable pub default_config : (R : Float) → Network → AppConfig R.F
default_config R network = record {
  network = network;
  data_dir = codes "./data";
  bitcoin_core = default_bitcoin_core;
  sv2 = default_sv2;
  metrics = default_metrics;
  ui = default_ui;
  shares_per_minute = R.literal 6 1;
  share_batch_size = 10;
  cert_validity_sec = 3600;
  pool_signature = codes "Canary Mining";
  server_id = 1;
}
