-- ===== src/TestMiner/Options.antt =====
-- The options of the test miner: `TestMinerConfig` and the program's `main`.
use canary_mining.Common.{
  ℕ, ◌+◌, Bool, true, ◌&&◌, Option, none, some, List, [], ◌∷◌, ◌++◌, if◌then◌else◌, nat_beq, leb,
  Result, ok, err,
}
use canary_mining.Common.Int64.{u64_max}
use canary_mining.Common.Float.{Float}
use canary_mining.Common.Text.Basic.{Text, codes}
use canary_mining.Config.{AppConfig, default_pool_payout_address}
use canary_mining.Keys.{FileSystem, KeyLib, KeyError, AuthorityKeys, load_or_create}
use canary_mining.TestMiner.Work.{ShareMode, block_only}

-- `SocketAddr`: four bytes or eight groups, and the port.
pub data IpAddr : Type 0 where
  v4 : List ℕ → IpAddr
  v6 : List ℕ → IpAddr

pub record SocketAddr : Type 0 where
  pub ip : IpAddr
  pub port : ℕ

abbrev pub localhost : IpAddr
localhost = v4 (127 ∷ 0 ∷ 0 ∷ 1 ∷ [])

-- `is_unspecified`.
abbrev pub all_zero : List ℕ → Bool
all_zero [] = true
all_zero (n ∷ ns) = nat_beq n 0 && all_zero ns

abbrev pub client_ip : IpAddr → IpAddr
client_ip (v4 bytes) = if all_zero bytes then localhost else v4 bytes
client_ip (v6 groups) = if all_zero groups then localhost else v6 groups

unfoldable pub client_address_for_listen : SocketAddr → SocketAddr
client_address_for_listen listen = record { ip = client_ip listen.ip; port = listen.port }

-- Times are in seconds.
pub record TestMinerConfig (F P : Type 0) : Type 0 where
  pub pool_address : SocketAddr
  pub authority_public_key : P
  pub user_identity : Text
  pub device_id : Text
  pub nominal_hashrate : F
  pub timeout : ℕ
  pub stop_after_accepted_blocks : ℕ
  pub linger_after_accepted : ℕ
  pub cores : ℕ
  pub share_mode : ShareMode

abbrev pub pool_or_client : SocketAddr → Option SocketAddr → SocketAddr
pool_or_client listen none = client_address_for_listen listen
pool_or_client listen (some pool) = pool

-- `Cli`, but for the path of the configuration; an option without a value has its default.
pub record Cli (F P : Type 0) : Type 0 where
  pub pool : Option SocketAddr
  pub authority_public_key : Option P
  pub user_identity : Option Text
  pub device_id : Text
  pub nominal_hashrate : F
  pub timeout_seconds : ℕ
  pub stop_after_accepted_blocks : ℕ
  pub linger_after_accepted_seconds : ℕ
  pub cores : ℕ
  pub share_mode : ShareMode

module _ (R : Float) (D : FileSystem) (K : KeyLib) where
  abbrev pub config_with :
      AppConfig R.F → SocketAddr → Option SocketAddr → K.P → TestMinerConfig R.F K.P
  config_with app_config listen pool key = record {
    pool_address = pool_or_client listen pool;
    authority_public_key = key;
    user_identity = default_pool_payout_address app_config ++ codes ".regtest_sv2_test_miner";
    device_id = codes "canary-mining-test-miner";
    nominal_hashrate = R.literal 10000000 1;
    timeout = 60;
    stop_after_accepted_blocks = 1;
    linger_after_accepted = 0;
    cores = 1;
    share_mode = block_only;
  }

  abbrev pub config_of :
      AppConfig R.F
      → SocketAddr
      → Option SocketAddr
      → D.State × Result KeyError (AuthorityKeys K.P K.S)
      → D.State × Result KeyError (TestMinerConfig R.F K.P)
  config_of app_config listen pool (s, ok keys) =
      (s, ok (config_with app_config listen pool keys.public_key))
  config_of app_config listen pool (s, err e) = (s, err e)

  -- The keys are read or made only where no key is given. The listen address is that of the
  -- configuration, parsed; a new secret is at hand.
  unfoldable pub from_app_config :
      D.State
      → AppConfig R.F
      → SocketAddr
      → K.S
      → Option SocketAddr
      → Option K.P
      → D.State × Result KeyError (TestMinerConfig R.F K.P)
  unfolding load_or_create client_address_for_listen default_pool_payout_address
  from_app_config s app_config listen secret pool (some key) =
      (s, ok (config_with app_config listen pool key))
  from_app_config s app_config listen secret pool none =
      config_of app_config listen pool (load_or_create D K s app_config.data_dir secret)

abbrev pub text_or : Text → Option Text → Text
text_or default none = default
text_or default (some text) = text

-- The options of the command line over the defaults.
unfoldable pub with_options : {F P : Type 0} → Cli F P → TestMinerConfig F P → TestMinerConfig F P
with_options cli config = record config {
  user_identity = text_or config.user_identity cli.user_identity;
  device_id = cli.device_id;
  nominal_hashrate = cli.nominal_hashrate;
  timeout = cli.timeout_seconds;
  stop_after_accepted_blocks = cli.stop_after_accepted_blocks;
  linger_after_accepted = cli.linger_after_accepted_seconds;
  cores = cli.cores;
  share_mode = cli.share_mode;
}

-- `Duration::checked_add`, in whole seconds.
abbrev pub checked_add : Option ℕ → ℕ → Option ℕ
checked_add none b = none
checked_add (some a) b = if leb (a + b) u64_max then some (a + b) else none

abbrev pub or_timeout : ℕ → Option ℕ → ℕ
or_timeout timeout none = timeout
or_timeout timeout (some duration) = duration

unfoldable pub hard_timeout : {F P : Type 0} → TestMinerConfig F P → ℕ
hard_timeout config =
    or_timeout config.timeout
      (checked_add (checked_add (some config.timeout) config.linger_after_accepted) 5)
