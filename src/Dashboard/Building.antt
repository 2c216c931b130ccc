-- ===== src/Dashboard/Building.antt =====
-- `build_miner_workers`: the workers from the rows of the monitoring, the sessions of the registry and
-- the known miners.
use canary_mining.Common.{
  ℕ, Bool, not, Option, none, some, List, [], ◌∷◌, map, if◌then◌else◌, is_some, ltb, nat_beq,
  bool_beq,
}
use canary_mining.Common.Assoc.{get, insert, remove}
use canary_mining.Common.Int64.{u64_max}
use canary_mining.Common.Sort.{sort}
use canary_mining.Common.Text.Basic.{text_beq, text_eq}
use canary_mining.Common.Float.{Float}
use canary_mining.Config.{Network}
use canary_mining.Address.{AddressLib}
use canary_mining.Stats.Sessions.{MinerSessionSnapshot}
use canary_mining.History.Writer.{SessionKey, session_key_eq}
use canary_mining.History.Listing.{KnownMiner, text_lt}
use canary_mining.Dashboard.Sessions.{
  MinerRow, unwrap_or, miner_session_from_row, miner_session_from_stat,
  miner_session_from_known_miner,
}
use canary_mining.Dashboard.Workers.{MinerWorker, Workers, push_worker_session, finalize_worker}

abbrev pub stat_key : {F : Type 0} → MinerSessionSnapshot F → SessionKey
stat_key stat = record {
  downstream_id = stat.downstream_id;
  channel_id = stat.channel_id;
  channel_kind = stat.channel_kind;
}

abbrev pub row_key : {F : Type 0} → MinerRow F → SessionKey
row_key miner = record {
  downstream_id = miner.client_id;
  channel_id = miner.channel_id;
  channel_kind = miner.channel_kind;
}

-- `stats_by_channel`.
abbrev pub StatMap : Type 0 → Type 0
StatMap F = List (SessionKey × MinerSessionSnapshot F)

unfoldable pub index_stats : {F : Type 0} → StatMap F → List (MinerSessionSnapshot F) → StatMap F
index_stats by_channel [] = by_channel
index_stats by_channel (stat ∷ stats) = index_stats (insert (stat_key stat) stat by_channel) stats

-- The order of the workers: those on the template, the connected, and those seen last come first, then
-- by label and address.
unfoldable pub worker_named_before : {F : Type 0} → MinerWorker F → MinerWorker F → Bool
worker_named_before a b =
    if text_beq a.label b.label
    then not (text_lt b.payout_address a.payout_address)
    else text_lt a.label b.label

unfoldable pub worker_seen_before : {F : Type 0} → MinerWorker F → MinerWorker F → Bool
unfolding worker_named_before
worker_seen_before a b =
    let x = unwrap_or u64_max a.last_seen_seconds in
    let y = unwrap_or u64_max b.last_seen_seconds in
    if nat_beq x y then worker_named_before a b else ltb x y

unfoldable pub worker_before : {F : Type 0} → MinerWorker F → MinerWorker F → Bool
unfolding worker_seen_before
worker_before a b =
    if not (bool_beq a.active_on_template b.active_on_template)
    then a.active_on_template
    else if not (bool_beq a.connected b.connected)
    then a.connected
    else worker_seen_before a b

abbrev pub rows_or_none : {F : Type 0} → Option (List (MinerRow F)) → List (MinerRow F)
rows_or_none none = []
rows_or_none (some miners) = miners

module _ (L : AddressLib) (R : Float) (network : Network) (now : ℕ) where
  -- The loop over the rows: each takes the statistics of its channel.
  unfoldable pub place_rows :
      List (MinerRow R.F) → StatMap R.F → Workers R.F → StatMap R.F × Workers R.F
  place_rows [] stats workers = (stats, workers)
  place_rows (miner ∷ miners) stats workers = place_rows miners (remove (row_key miner) stats) (
      push_worker_session L R workers network miner.user_identity
        (miner_session_from_row R miner (get (row_key miner) stats) now))

  unfoldable pub place_stats : StatMap R.F → Workers R.F → Workers R.F
  place_stats [] workers = workers
  place_stats ((k, stat) ∷ stats) workers = place_stats stats (
      push_worker_session L R workers network stat.user_identity
        (miner_session_from_stat R stat now))

  abbrev pub place_known_miner : KnownMiner R.F → Workers R.F → Workers R.F
  place_known_miner miner workers =
      if is_some (get miner.miner_id workers)
      then workers
      else push_worker_session L R workers network miner.user_identity
          (miner_session_from_known_miner R miner now)

  unfoldable pub place_known : List (KnownMiner R.F) → Workers R.F → Workers R.F
  place_known [] workers = workers
  place_known (miner ∷ miners) workers = place_known miners (place_known_miner miner workers)

  -- The order of a hash map, which is not specified, is that of its list.
  unfoldable pub build_miner_workers :
      Option (List (MinerRow R.F))
      → List (MinerSessionSnapshot R.F)
      → List (KnownMiner R.F)
      → List (MinerWorker R.F)
  unfolding index_stats place_rows place_stats place_known
  build_miner_workers current_miners stats known_miners =
      let (rest, workers) = place_rows (rows_or_none current_miners) (index_stats [] stats) [] in
      let workers' = place_known known_miners (place_stats rest workers) in
      sort worker_before (map (λ e. finalize_worker R e.1) workers')
