-- ===== src/Stats/Sessions.antt =====
-- Snapshots and the forgetting of closed sessions: the rest of miner_stats.rs.
use canary_mining.Common.{
  ℕ, ◌-◌, Bool, true, not, ◌||◌, Option, none, some, List, [], map, if◌then◌else◌, leb, is_none,
  retain, ◌==◌,
}
use canary_mining.Common.Text.Basic.{Text, text_eq}
use canary_mining.Stats.{MinerSessionStats, Registry, closed_session_retention_secs, as_str, write}

pub record MinerSessionSnapshot (F : Type 0) : Type 0 where
  pub downstream_id : ℕ
  pub channel_id : ℕ
  pub channel_kind : Text
  pub user_identity : Text
  pub opened_at : ℕ
  pub closed_at : Option ℕ
  pub last_seen_at : ℕ
  pub nominal_hashrate : F
  pub shares_accepted : ℕ
  pub best_diff : F
  pub blocks_found : ℕ
  pub shares_rejected : ℕ
  pub shares_rejected_by_reason : List (Text × ℕ)

-- `saturating_sub` is the subtraction of ℕ.
abbrev pub within_retention : ℕ → Option ℕ → Bool
within_retention now none = true
within_retention now (some closed_at) = leb (now - closed_at) closed_session_retention_secs

module _ {F : Type 0} where
  unfoldable pub to_snapshot : MinerSessionStats F → MinerSessionSnapshot F
  unfolding as_str
  to_snapshot stats = record {
    downstream_id = stats.downstream_id;
    channel_id = stats.channel_id;
    channel_kind = as_str stats.channel_kind;
    user_identity = stats.user_identity;
    opened_at = stats.opened_at;
    closed_at = stats.closed_at;
    last_seen_at = stats.last_seen_at;
    nominal_hashrate = stats.nominal_hashrate;
    shares_accepted = stats.shares_accepted;
    best_diff = stats.best_diff;
    blocks_found = stats.blocks_found;
    shares_rejected = stats.shares_rejected;
    shares_rejected_by_reason = stats.shares_rejected_by_reason;
  }

  unfoldable pub snapshots : Registry F → ℕ → Registry F × List (MinerSessionSnapshot F)
  unfolding write
  snapshots r now =
      let r' = write r (retain (λ e. within_retention now e.1.closed_at)) in
      (r', if r.poisoned then [] else map (λ e. to_snapshot e.1) r'.sessions)

  unfoldable pub forget_closed_sessions_for_user : Registry F → Text → Registry F
  unfolding write
  forget_closed_sessions_for_user r user =
      write r (retain (λ e. not (e.1.user_identity == user) || is_none e.1.closed_at))
