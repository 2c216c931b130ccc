-- ===== src/Program/Startup.antt =====
-- `run` up to the start of mining, and `check`.
use canary_mining.Common.{
  Bool, true, false, Option, none, some, List, [], ◌∷◌, ◌++◌, if◌then◌else◌, Result, ok, err,
  map_err, ◌>>=◌,
}
use canary_mining.Common.Float.{Float}
use canary_mining.Common.Text.Basic.{Text, codes}
use canary_mining.Config.{ConfigError, AppConfig, display, read, default_pool_payout_address}
use canary_mining.Keys.{
  FileSystem, KeyLib, KeyError, AuthorityKeys, load_or_create, authority_key_path,
}
use canary_mining.PoolConfig.{
  PoolLib, PoolConfigError, PoolConfig, build_pool_config, resolve_ipc_socket_path,
}
use canary_mining.Dashboard.Status.{is_available}

-- What the start calls: the reading of the configuration, whether a path exists, the opening of the
-- history, the listener of the dashboard, and the keys as texts.
pub record World (R : Float) : Type 1 where
  pub disk : FileSystem
  pub keys : KeyLib
  pub pool : PoolLib
  pub read_to_string : Text → Result Text Text
  pub from_toml : Text → Result Text (AppConfig R.F)
  pub exists : Text → Bool
  pub open_history : AppConfig R.F → Result Text (Unit {0})
  pub bind : Text → Result Text (Unit {0})
  pub show_key : keys.P → Text

pub data RunError : Type 0 where
  config_failed : ConfigError → RunError
  keys_failed : KeyError → RunError
  pool_config_failed : PoolConfigError → RunError
  history_failed : Text → RunError
  dashboard_failed : Text → RunError
  no_socket : RunError

module _ (R : Float) (W : World R) where
  abbrev pub Config : Type 0
  Config = AppConfig R.F

  abbrev pub Pool : Type 0
  Pool = PoolConfig R.F W.keys.P W.keys.S W.pool.Script

  abbrev pub Disk : Type 0
  Disk = W.disk.State

  -- What runs after the start: the dashboard alone, or mining.
  pub data Mode : Type 0 where
    dashboard_only : Mode
    mining : Pool → Mode

  unfoldable pub load_checked_config : Text → Result RunError Config
  load_checked_config path = map_err config_failed (read R W.read_to_string W.from_toml path)

  abbrev pub ipc_available : Config → Bool
  ipc_available config = is_available W.exists (resolve_ipc_socket_path W.pool config)

  -- The pool's configuration is built only where the socket exists.
  unfoldable pub pool_config_if :
      Bool → Config → AuthorityKeys W.keys.P W.keys.S → Result RunError (Option Pool)
  pool_config_if false config keys = ok none
  pool_config_if true config keys = do
    pool ← map_err pool_config_failed (build_pool_config W.pool config keys)
    ok (some pool)

  -- `start_ui`: without the dashboard nothing is bound.
  unfoldable pub start_ui : Config → Result RunError (Unit {0})
  start_ui config =
      if config.ui.enabled
      then map_err dashboard_failed (W.bind config.ui.listen_address)
      else ok tt

  -- Whether to go on, with or without a pool.
  unfoldable pub choose_mode : Bool → Option Pool → Result RunError Mode
  choose_mode enabled (some pool) = ok (mining pool)
  choose_mode true none = ok dashboard_only
  choose_mode false none = err no_socket

  unfoldable pub start_with : Config → AuthorityKeys W.keys.P W.keys.S → Result RunError Mode
  unfolding pool_config_if start_ui choose_mode
  start_with config keys = do
    pool ← pool_config_if (ipc_available config) config keys
    _ ← map_err history_failed (W.open_history config)
    _ ← start_ui config
    choose_mode config.ui.enabled pool

  abbrev pub with_keys :
      Config
      → Disk × Result KeyError (AuthorityKeys W.keys.P W.keys.S)
      → Disk × Result RunError Mode
  with_keys config (s, ok keys) = (s, start_with config keys)
  with_keys config (s, err e) = (s, err (keys_failed e))

  abbrev pub with_config : Disk → W.keys.S → Result RunError Config → Disk × Result RunError Mode
  with_config s secret (err e) = (s, err e)
  with_config s secret (ok config) =
      with_keys config (load_or_create W.disk W.keys s config.data_dir secret)

  -- `run` until the pool starts: the disk, which may have new keys, and what runs then.
  unfoldable pub start : Disk → Text → W.keys.S → Disk × Result RunError Mode
  unfolding load_checked_config start_with
  start s config_path secret = with_config s secret (load_checked_config config_path)

  abbrev pub show_bool : Bool → Text
  show_bool true = codes "true"
  show_bool false = codes "false"

  abbrev pub dashboard_lines : Config → List Text
  dashboard_lines config =
      if config.ui.enabled
      then (codes "ui_listen_address: " ++ config.ui.listen_address) ∷ []
      else []

  abbrev pub socket_lines : Option Text → List Text
  socket_lines none = codes "bitcoin_core_ipc_socket: unresolved" ∷ []
  socket_lines (some path) =
      (codes "bitcoin_core_ipc_socket: " ++ path)
      ∷ (codes "bitcoin_core_ipc_socket_exists: " ++ show_bool (W.exists path))
      ∷ []

  -- The lines that `check` prints.
  unfoldable pub report : Config → AuthorityKeys W.keys.P W.keys.S → List Text
  report config keys =
      codes "config: ok"
      ∷ (codes "network: " ++ display config.network)
      ∷ (codes "sv2_listen_address: " ++ config.sv2.listen_address)
      ∷ (codes "ui_enabled: " ++ show_bool config.ui.enabled)
      ∷ (dashboard_lines config
          ++ ((codes "default_pool_payout_address: " ++ default_pool_payout_address config)
              ∷ (codes "authority_public_key: " ++ W.show_key keys.public_key)
              ∷ (codes "authority_keys_path: " ++ authority_key_path config.data_dir)
              ∷ socket_lines (resolve_ipc_socket_path W.pool config)))

  unfoldable pub check_with : Config → AuthorityKeys W.keys.P W.keys.S → Result RunError (List Text)
  unfolding report
  check_with config keys = do
    _ ← map_err pool_config_failed (build_pool_config W.pool config keys)
    ok (report config keys)

  abbrev pub check_keys :
      Config
      → Disk × Result KeyError (AuthorityKeys W.keys.P W.keys.S)
      → Disk × Result RunError (List Text)
  check_keys config (s, ok keys) = (s, check_with config keys)
  check_keys config (s, err e) = (s, err (keys_failed e))

  abbrev pub check_config :
      Disk → W.keys.S → Result RunError Config → Disk × Result RunError (List Text)
  check_config s secret (err e) = (s, err e)
  check_config s secret (ok config) =
      check_keys config (load_or_create W.disk W.keys s config.data_dir secret)

  unfoldable pub check : Disk → Text → W.keys.S → Disk × Result RunError (List Text)
  unfolding load_checked_config check_with
  check s config_path secret = check_config s secret (load_checked_config config_path)
