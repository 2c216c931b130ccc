-- ===== src/Dashboard/Sessions.antt =====
-- The sessions of a miner on the dashboard, from a row of the monitoring, from the registry, or from
-- the table of known miners.
use canary_mining.Common.{
  ℕ, ◌+◌, ◌-◌, ◌%◌, Bool, Option, none, some, ◌++◌, ◌==◌, nat_eq, if◌then◌else◌, is_none,
}
use mathlib.Core.Option
use canary_mining.Common.Int64.{u64_mod}
use canary_mining.Common.Text.Basic.{Text, codes}
use canary_mining.Common.Float.{Float, float_zero}
use canary_mining.Stats.Sessions.{MinerSessionSnapshot}
use canary_mining.History.Listing.{KnownMiner}
use canary_mining.Common.Decimal.{decimal}

pub record MinerRow (F : Type 0) : Type 0 where
  pub id : Text
  pub client_id : ℕ
  pub channel_id : ℕ
  pub channel_kind : Text
  pub connected : Bool
  pub label : Text
  pub payout_address : Text
  pub user_identity : Text
  pub nominal_hashrate : F
  pub shares_accepted : ℕ
  pub best_diff : F
  pub blocks_found : ℕ
  pub target_hex : Option Text
  pub pool_diff : Option F
  pub last_seen_at : Option ℕ

pub record MinerSession (F : Type 0) : Type 0 where
  pub session_id : Text
  pub client_id : ℕ
  pub channel_id : ℕ
  pub channel_kind : Text
  pub hashrate : F
  pub pool_diff : Option F
  pub best_diff : F
  pub shares_accepted : ℕ
  pub shares_rejected : ℕ
  pub rejection_percent : F
  pub opened_at : Option ℕ
  pub closed_at : Option ℕ
  pub last_seen_at : Option ℕ
  pub uptime_seconds : Option ℕ
  pub last_seen_seconds : Option ℕ
  pub connected : Bool

-- The sum of the shares wraps, as in a release build.
unfoldable pub rejection_percent : (R : Float) → ℕ → ℕ → R.F
rejection_percent R shares_accepted shares_rejected =
    let total = (shares_accepted + shares_rejected) % u64_mod in
    if total == 0
    then float_zero R
    else R.mul (R.div (R.of_u64 shares_rejected) (R.of_u64 total)) (R.literal 100 1)

abbrev pub unwrap_or {ℓ} : {A : Type ℓ} → A → Option A → A
unwrap_or d none = d
unwrap_or d (some a) = a

-- `Option::or`.
abbrev pub or_else {ℓ} : {A : Type ℓ} → Option A → Option A → Option A
or_else none b = b
or_else (some a) b = some a

-- `format!("{}:{}:{}", ...)`.
unfoldable pub session_id : ℕ → Text → ℕ → Text
unfolding decimal
session_id client kind channel =
    decimal client ++ (codes ":" ++ (kind ++ (codes ":" ++ decimal channel)))

unfoldable pub session_uptime_seconds : {F : Type 0} → MinerSessionSnapshot F → ℕ → ℕ
session_uptime_seconds stat now = unwrap_or now stat.closed_at - stat.opened_at

abbrev pub hashrate_if : (R : Float) → Bool → R.F → R.F
hashrate_if R connected hashrate = if connected then hashrate else float_zero R

abbrev pub closing_time : {F : Type 0} → Option (MinerSessionSnapshot F) → Option ℕ
closing_time none = none
closing_time (some stat) = stat.closed_at

unfoldable pub miner_session_from_row :
    (R : Float) → MinerRow R.F → Option (MinerSessionSnapshot R.F) → ℕ → MinerSession R.F
unfolding rejection_percent session_id session_uptime_seconds
miner_session_from_row R miner stat now =
    let shares_rejected = unwrap_or 0 (Option.map (λ s. s.shares_rejected) stat) in
    let last_seen_at = or_else (Option.map (λ s. s.last_seen_at) stat) miner.last_seen_at in
    record {
      session_id = session_id miner.client_id miner.channel_kind miner.channel_id;
      client_id = miner.client_id;
      channel_id = miner.channel_id;
      channel_kind = miner.channel_kind;
      hashrate = hashrate_if R miner.connected miner.nominal_hashrate;
      pool_diff = miner.pool_diff;
      best_diff = miner.best_diff;
      shares_accepted = miner.shares_accepted;
      shares_rejected = shares_rejected;
      rejection_percent = rejection_percent R miner.shares_accepted shares_rejected;
      opened_at = Option.map (λ s. s.opened_at) stat;
      closed_at = closing_time stat;
      last_seen_at = last_seen_at;
      uptime_seconds = Option.map (λ s. session_uptime_seconds s now) stat;
      last_seen_seconds = Option.map (λ t. now - t) last_seen_at;
      connected = miner.connected;
    }

unfoldable pub miner_session_from_stat :
    (R : Float) → MinerSessionSnapshot R.F → ℕ → MinerSession R.F
unfolding rejection_percent session_id session_uptime_seconds
miner_session_from_stat R stat now = record {
  session_id = session_id stat.downstream_id stat.channel_kind stat.channel_id;
  client_id = stat.downstream_id;
  channel_id = stat.channel_id;
  channel_kind = stat.channel_kind;
  hashrate = hashrate_if R (is_none stat.closed_at) stat.nominal_hashrate;
  pool_diff = none;
  best_diff = stat.best_diff;
  shares_accepted = stat.shares_accepted;
  shares_rejected = stat.shares_rejected;
  rejection_percent = rejection_percent R stat.shares_accepted stat.shares_rejected;
  opened_at = some stat.opened_at;
  closed_at = stat.closed_at;
  last_seen_at = some stat.last_seen_at;
  uptime_seconds = some (session_uptime_seconds stat now);
  last_seen_seconds = some (now - stat.last_seen_at);
  connected = is_none stat.closed_at;
}

unfoldable pub miner_session_from_known_miner : (R : Float) → KnownMiner R.F → ℕ → MinerSession R.F
unfolding rejection_percent
miner_session_from_known_miner R miner now = record {
  session_id = miner.miner_id;
  client_id = 0;
  channel_id = 0;
  channel_kind = codes "last";
  hashrate = hashrate_if R miner.connected miner.nominal_hashrate;
  pool_diff = none;
  best_diff = miner.best_diff;
  shares_accepted = miner.shares_accepted;
  shares_rejected = miner.shares_rejected;
  rejection_percent = rejection_percent R miner.shares_accepted miner.shares_rejected;
  opened_at = miner.opened_at;
  closed_at = miner.closed_at;
  last_seen_at = some miner.last_seen_at;
  uptime_seconds =
      if miner.connected
      then Option.map (λ opened_at. now - opened_at) miner.opened_at
      else miner.uptime_seconds;
  last_seen_seconds = some (now - miner.last_seen_at);
  connected = miner.connected;
}
