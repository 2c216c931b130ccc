-- ===== src/Dashboard/Status.antt =====
-- The state of mining that the dashboard and its health check report. Whether a path exists is a
-- parameter.
use canary_mining.Common.{
  ℕ, Bool, true, false, not, ◌&&◌, ◌≡◌, ◌↔◌, arith, Option, none, some, ◌++◌, if◌then◌else◌,
  is_none,
}
use canary_mining.Common.Text.Basic.{Text, codes}

pub record MiningRuntimeStatus : Type 0 where
  pub pool_started : Bool
  pub pool_error : Option Text

pub record MiningStatusResponse : Type 0 where
  pub sv2_listening : Bool
  pub template_provider_available : Bool
  pub setup_required : Bool
  pub ipc_socket_path : Option Text
  pub warning : Option Text
  pub error : Option Text

pub record HealthResponse : Type 0 where
  pub ready : Bool
  pub server_time : ℕ
  pub sv2_listening : Bool
  pub template_available : Bool
  pub ipc_socket_available : Bool
  pub warning : Option Text
  pub error : Option Text

abbrev pub ipc_setup_required_message : Text
ipc_setup_required_message =
    codes
      "Bitcoin Core IPC mining is not enabled. Enable Bitcoin Core IPC in Bitcoin Node settings, restart Bitcoin Node, then restart Canary Mining."

-- `is_some_and(|path| path.exists())`.
abbrev pub is_available : (Text → Bool) → Option Text → Bool
is_available exists none = false
is_available exists (some path) = exists path

abbrev pub setup_warning : Option Text → Text
setup_warning none = ipc_setup_required_message
setup_warning (some path) =
    ipc_setup_required_message ++ (codes " Expected IPC socket: " ++ (path ++ codes "."))

unfoldable pub mining_status_from_parts :
    (Text → Bool) → MiningRuntimeStatus → Option Text → MiningStatusResponse
mining_status_from_parts exists runtime ipc_socket_path =
    let available = is_available exists ipc_socket_path in
    record {
      sv2_listening = runtime.pool_started && is_none runtime.pool_error && available;
      template_provider_available = available;
      setup_required = not available;
      ipc_socket_path = ipc_socket_path;
      warning = if available then none else some (setup_warning ipc_socket_path);
      error = runtime.pool_error;
    }

-- `api_health`, with the state that it reads as arguments.
unfoldable pub api_health :
    (Text → Bool) → MiningRuntimeStatus → Option Text → Bool → ℕ → HealthResponse
api_health exists runtime ipc_socket_path template_available now =
    let available = is_available exists ipc_socket_path in
    let listening = runtime.pool_started && is_none runtime.pool_error in
    record {
      ready = listening && available && template_available && is_none runtime.pool_error;
      server_time = now;
      sv2_listening = listening;
      template_available = template_available;
      ipc_socket_available = available;
      warning = if available then none else some ipc_setup_required_message;
      error = runtime.pool_error;
    }

-- The health check is ready exactly if the dashboard's status is listening and there is a template;
-- and the two agree on whether to warn, which they do exactly if a setup is required.
pub ready_iff :
    (exists : Text → Bool) (runtime : MiningRuntimeStatus) (path : Option Text) (template : Bool)
    (now : ℕ)
    → let health = api_health exists runtime path template now in
      let status = mining_status_from_parts exists runtime path in
      ((health.ready ≡ true) ↔ ((status.sv2_listening ≡ true) × (template ≡ true)))
      × ((health.warning ≡ none) ↔ (status.warning ≡ none))
      × ((health.warning ≡ none) ↔ (status.setup_required ≡ false))
unfolding api_health mining_status_from_parts
ready_iff exists runtime path template now = (ground arith, ground arith, ground arith)
