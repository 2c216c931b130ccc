-- ===== src/PoolConfig/Laws.antt =====
-- When the pool and the dashboard take the same socket from the configuration; and a configuration of
-- the pool pays the address of its network.
use canary_mining.Common.{Option, ◌≡◌, ◌⊎◌, true, false, is_some}
use canary_mining.Common.Text.Basic.{Text}
use canary_mining.Config.{AppConfig}
use canary_mining.Keys.{AuthorityKeys}
use canary_mining.PoolConfig.{PoolLib, PoolConfig, resolve_ipc_socket_path}
use canary_mining.PoolConfig.Socket.{names_socket, resolve_bitcoin_core_ipc_socket_path}

module _ (B : PoolLib) {F P S : Type 0} where
  -- The socket of the pool.
  abbrev pub pool_socket : PoolConfig F P S B.Script → Option Text
  pool_socket pool =
      resolve_bitcoin_core_ipc_socket_path B pool.template_provider.network
        pool.template_provider.data_dir

  -- The pool and the dashboard take the same socket; or a socket is configured that does not end in
  -- `.sock`, and the pool looks for its default place below it; or none is configured, but the data
  -- directory ends in `.sock`, and the pool takes the directory itself.
  abbrev pub IsTaken : AppConfig F → PoolConfig F P S B.Script → Type 0
  IsTaken config pool =
      let given = pool.template_provider.data_dir in
      let default_socket = B.default_ipc_socket pool.template_provider.network given in
      ((names_socket given ≡ is_some config.bitcoin_core.ipc_socket_path)
        × (resolve_ipc_socket_path B config ≡ pool_socket pool))
      ⊎ (((is_some config.bitcoin_core.ipc_socket_path ≡ true)
            × (names_socket given ≡ false)
            × (resolve_ipc_socket_path B config ≡ given)
            × (pool_socket pool ≡ default_socket))
          ⊎ ((is_some config.bitcoin_core.ipc_socket_path ≡ false)
              × (names_socket given ≡ true)
              × (resolve_ipc_socket_path B config ≡ default_socket)
              × (pool_socket pool ≡ given)))

  Built : AppConfig F → AuthorityKeys P S → B.Script → PoolConfig F P S B.Script → Type 0
  Built config keys script pool =
      (pool.coinbase_reward_script ≡ script) × (pool.authority ≡ keys) × IsTaken config pool
