-- ===== src/Tests/Startup.antt =====
-- The start of the program, its end, and the activity of downstreams, at small inputs.
use canary_mining.Common.{ℕ, ◌+◌, ◌≡◌, ◌↔◌, refl, arith, true, none, some, [], ◌++◌, ok}
use canary_mining.Common.Text.Basic.{Text, codes}
use canary_mining.Config.{AppConfig, Network, default_config, default_pool_payout_address}
use canary_mining.Keys.{AuthorityKeys}
use canary_mining.PoolConfig.{PoolLib, PoolConfig, pool_of, build_pool_config}
use canary_mining.Program.Startup.{World, mining, ipc_available, start}
use canary_mining.Program.Modes.{IsStarted, start-mining}
use canary_mining.Activity.Counting.{
  System, outside, loaded, move_to, increment_active_downstreams, Reach, here, next, increment,
  load, exchange, Reach-count,
}
use canary_mining.Activity.Waiting.{
  Shared, Steps, IsMissed, not_yet, busy, open_more, begin, missed, missed_wakeup,
}
use canary_mining.Tests.Models.{numbers}
use canary_mining.Tests.Node.{disk, curve}

abbrev pub pools : PoolLib
pools = record {
  Script = Text;
  from_descriptor = λ descriptor. ok descriptor;
  default_ipc_socket = λ network data_dir. some (codes "node.sock");
}

abbrev pub config : AppConfig ℕ
config = default_config numbers Network.regtest

abbrev keys : AuthorityKeys ℕ ℕ
keys = record { public_key = 6; secret_key = 5 }

abbrev built : PoolConfig ℕ ℕ ℕ Text
built =
    pool_of pools config keys (codes "addr(" ++ (default_pool_payout_address config ++ codes ")"))

abbrev world : World numbers
world = record {
  disk = disk;
  keys = curve;
  pool = pools;
  read_to_string = λ path. ok [];
  from_toml = λ raw. ok config;
  exists = λ path. true;
  open_history = λ config. ok tt;
  bind = λ address. ok tt;
  show_key = λ key. [];
}

start-mining_example :
    ((start numbers world none (codes "canary.toml") 5).1 ≡ ok (mining built)) ↔ (
      (c : AppConfig ℕ) × (k : AuthorityKeys ℕ ℕ) × IsStarted numbers world none
        (codes "canary.toml")
        5
        c
        k
      × (ipc_available numbers world c ≡ true)
      × (build_pool_config pools c k ≡ ok built))
start-mining_example = start-mining numbers world none (codes "canary.toml") 5 built

-- One thread opens a downstream and a second one closes it.
abbrev opened_and_closed : System
opened_and_closed = record {
  count = 0;
  pc = move_to (move_to (λ i. outside) 1 (loaded 1)) 1 outside;
  opened = 1;
  closed = 1;
}

open_and_close : Reach opened_and_closed
unfolding increment_active_downstreams
open_and_close =
    next (next (next here (increment 0 refl)) (load 1 refl)) (exchange 1 1 refl (omega arith) refl)

Reach-count_example : opened_and_closed.count + opened_and_closed.closed ≡ opened_and_closed.opened
Reach-count_example = Reach-count {s = opened_and_closed} open_and_close (omega arith)

abbrev two_active : Shared
two_active = record (missed 0) { count = 2 }

missed_wakeup_example : Steps begin two_active × IsMissed two_active
missed_wakeup_example =
    missed_wakeup 0 two_active (omega arith) (busy not_yet (open_more (omega arith)) (omega arith))
