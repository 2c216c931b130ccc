-- ===== src/Stats/Calls.antt =====
-- The calls that the pool and the dashboard make of the registry, and a run of them.
use canary_mining.Common.{ℕ, List, [], ◌∷◌, ◌++◌}
use canary_mining.Common.Text.Basic.{Text}
use canary_mining.Common.Float.{Float}
use canary_mining.Stats.{
  MinerSessionKey, Registry, Event, record_share_seen, record_share_rejected, record_share_accepted,
  record_block_found, record_channel_closed, record_downstream_closed, record_channel_opened,
}
use canary_mining.Stats.Sessions.{snapshots, forget_closed_sessions_for_user}

-- The calls that the pool and the dashboard make.
pub data Call (F : Type 0) : Type 0 where
  opened : MinerSessionKey → Text → F → Call F
  seen : MinerSessionKey → Call F
  rejected : MinerSessionKey → Text → Call F
  accepted : MinerSessionKey → ℕ → F → ℕ → Call F
  block : MinerSessionKey → Text → ℕ → Call F
  channel_ended : MinerSessionKey → Call F
  downstream_ended : ℕ → Call F
  listed : Call F
  forgotten : Text → Call F

module _ (R : Float) where
  -- One call at a time of the clock: the registry, and the events that were sent.
  unfoldable pub step : Registry R.F → ℕ × Call R.F → Registry R.F × List (Event R.F)
  step r (now, opened k user hashrate) = record_channel_opened R r k user hashrate now
  step r (now, seen k) = (record_share_seen r k now, [])
  step r (now, rejected k reason) = record_share_rejected r k reason now
  step r (now, accepted k shares best blocks) = record_share_accepted r k shares best blocks now
  step r (now, block k hash blocks) = record_block_found r k hash blocks now
  step r (now, channel_ended k) = record_channel_closed r k now
  step r (now, downstream_ended downstream) = record_downstream_closed r downstream now
  step r (now, listed) = ((snapshots r now).0, [])
  step r (now, forgotten user) = (forget_closed_sessions_for_user r user, [])

  unfoldable pub run : Registry R.F → List (ℕ × Call R.F) → Registry R.F × List (Event R.F)
  run r [] = (r, [])
  run r (c ∷ cs) =
      let (r', events) = step r c in let (r'', later) = run r' cs in (r'', events ++ later)
