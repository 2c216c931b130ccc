-- ===== src/Rpc/Locations.antt =====
-- Where Bitcoin Core is: its data directory, its RPC address and its cookie.
use canary_mining.Common.{ℕ, Option, none, some, ◌++◌}
use canary_mining.Common.Text.Basic.{Text, codes}
use canary_mining.Common.Paths.{path_join}
use canary_mining.Common.Decimal.{decimal}
use canary_mining.Config.{Network, mainnet, testnet4, signet, regtest, AppConfig}

-- `or_else` for a value that is computed where none is given: `unwrap_or_else`.
abbrev pub given_or : Text → Option Text → Text
given_or default none = default
given_or default (some value) = value

unfoldable pub rpc_port : Network → ℕ
rpc_port mainnet = 8332
rpc_port testnet4 = 48332
rpc_port signet = 38332
rpc_port regtest = 18443

unfoldable pub resolve_rpc_url : {F : Type 0} → AppConfig F → Text
unfolding rpc_port decimal
resolve_rpc_url config =
    given_or (codes "http://127.0.0.1:" ++ decimal (rpc_port config.network))
      config.bitcoin_core.rpc_url

-- On Linux, by the variable HOME.
unfoldable pub default_bitcoin_data_dir : Option Text → Text
unfolding path_join
default_bitcoin_data_dir none = codes ".bitcoin"
default_bitcoin_data_dir (some home) = path_join home (codes ".bitcoin")

unfoldable pub network_dir : Network → Text → Text
unfolding path_join
network_dir mainnet base = base
network_dir testnet4 base = path_join base (codes "testnet4")
network_dir signet base = path_join base (codes "signet")
network_dir regtest base = path_join base (codes "regtest")

unfoldable pub network_data_dir : {F : Type 0} → Option Text → AppConfig F → Text
unfolding default_bitcoin_data_dir network_dir
network_data_dir home config =
    network_dir config.network
      (given_or (default_bitcoin_data_dir home) config.bitcoin_core.data_dir)

unfoldable pub resolve_rpc_cookie_path : {F : Type 0} → Option Text → AppConfig F → Text
unfolding network_data_dir path_join
resolve_rpc_cookie_path home config =
    given_or (path_join (network_data_dir home config) (codes ".cookie"))
      config.bitcoin_core.rpc_cookie_path
