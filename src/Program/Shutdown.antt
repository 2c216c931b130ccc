-- ===== src/Program/Shutdown.antt =====
-- What happens when the pool ends: `handle_pool_result`, and the mining status before and after.
use canary_mining.Common.{
  ℕ, Bool, true, false, Option, none, some, Result, ok, err, if◌then◌else◌, ◌≡◌, arith, refl,
}
use canary_mining.Common.Text.Basic.{Text}
use canary_mining.Dashboard.Status.{MiningRuntimeStatus, mining_status_from_parts, api_health}

-- The end of the pool's task: the pool ends, fails with a message, or the task itself fails.
pub data PoolEnd : Type 0 where
  pool_ended : PoolEnd
  pool_failed : Text → PoolEnd
  task_failed : Text → PoolEnd

abbrev pub idle_runtime : MiningRuntimeStatus
idle_runtime = record { pool_started = false; pool_error = none }

-- What `run` writes before it starts the pool.
unfoldable pub mark_started : MiningRuntimeStatus → MiningRuntimeStatus
mark_started runtime = record { pool_started = true; pool_error = none }

-- The new runtime status, and the result of the program. The last argument is what the wait for a
-- shutdown returns, for which the program waits only with a dashboard.
unfoldable pub handle_pool_result :
    PoolEnd
    → MiningRuntimeStatus
    → Bool
    → Result Text (Unit {0})
    → MiningRuntimeStatus × Result Text (Unit {0})
handle_pool_result pool_ended runtime ui_enabled shutdown = (runtime, ok tt)
handle_pool_result (pool_failed message) runtime ui_enabled shutdown = (
  record { pool_started = false; pool_error = some message },
  if ui_enabled then shutdown else err message,
)
handle_pool_result (task_failed message) runtime ui_enabled shutdown = (runtime, err message)

-- Mining goes on as the dashboard sees it until the pool fails: a started pool is listening exactly
-- if the socket exists; after a failure it is not listening, not ready, and the message is shown,
-- whatever the socket; and the program fails with that message exactly if there is no dashboard to
-- keep, or else ends as the shutdown does.
pub handle_pool_result_lem :
    (exists : Text → Bool) (path : Option Text) (runtime : MiningRuntimeStatus) (message : Text)
    (ui_enabled template : Bool) (now : ℕ) (shutdown : Result Text (Unit {0}))
    → let started = mining_status_from_parts exists (mark_started runtime) path in
      let (failed, result) =
        handle_pool_result (pool_failed message) (mark_started runtime) ui_enabled shutdown in
      let after = mining_status_from_parts exists failed path in
      let health = api_health exists failed path template now in
      (started.sv2_listening ≡ started.template_provider_available)
      × (after.sv2_listening ≡ false)
      × (after.error ≡ some message)
      × (health.ready ≡ false)
      × (health.error ≡ some message)
      × (result ≡ (if ui_enabled then shutdown else err message))
unfolding mark_started handle_pool_result mining_status_from_parts api_health
handle_pool_result_lem exists path runtime message ui_enabled template now shutdown =
    (ground arith, ground arith, refl, ground arith, refl, refl)
