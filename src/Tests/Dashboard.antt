-- ===== src/Tests/Dashboard.antt =====
-- The dashboard at a small monitoring.
use canary_mining.Common.Sort.{IsSorted}
use canary_mining.Common.{
  List, if◌then◌else◌, refl, ◌||◌, ℕ, ◌+◌, ◌≤◌, ◌≡◌, none, some, [], ◌∷◌, true, false, length,
}
use canary_mining.Common.Text.Basic.{
  codes, trim, is_whitespace, split_once, strip_prefix, starts_with, text_beq,
}
use canary_mining.Address.{into, canonical_address, validate_payout_address}
use canary_mining.Identity.{parse_miner_identity, select_address, normalize_label, miner_id}
use canary_mining.Config.{Network, display}
use canary_mining.Stats.Sessions.{MinerSessionSnapshot}
use canary_mining.History.Listing.{KnownMiner}
use canary_mining.Common.Assoc.{get}
use canary_mining.Common.Text.Basic.{text_eq}
use canary_mining.Dashboard.Seen.Laws.{Answer, merge_all, last_sighting, IsShown, merge_all-IsShown}
use canary_mining.Dashboard.Sessions.{MinerRow, MinerSession}
use canary_mining.Dashboard.Workers.{
  miner_row_id, MinerWorker, with_session, new_worker, finalize_worker,
}
use canary_mining.Dashboard.Listed.{
  count_id, IsOwn, row_lists, stat_lists, known_lists, count_id-build_miner_workers,
}
use canary_mining.Dashboard.Final.{IsFinal, finalize_worker_lem}
use canary_mining.Dashboard.Building.{worker_before, build_miner_workers, index_stats, rows_or_none}
use canary_mining.Dashboard.Totals.{total_count, remaining, total-build_miner_workers}
use canary_mining.Tests.Models.{numbers, prefixes, read_address, check_prefix}
use canary_mining.Tests.Registry.{user, id}

abbrev row : MinerRow numbers.F
row = record {
  id = id;
  client_id = 1;
  channel_id = 7;
  channel_kind = codes "standard";
  connected = true;
  label = codes "garage";
  payout_address = codes "bcrt1q2nf";
  user_identity = user;
  nominal_hashrate = 100;
  shares_accepted = 3;
  best_diff = 2;
  blocks_found = 0;
  target_hex = none;
  pool_diff = some 1;
  last_seen_at = some 40;
}

abbrev stat : ℕ → MinerSessionSnapshot numbers.F
stat channel = record {
  downstream_id = 1;
  channel_id = channel;
  channel_kind = codes "standard";
  user_identity = user;
  opened_at = 10;
  closed_at = none;
  last_seen_at = 45;
  nominal_hashrate = 100;
  shares_accepted = 3;
  best_diff = 2;
  blocks_found = 0;
  shares_rejected = 1;
  shares_rejected_by_reason = (codes "stale", 1) ∷ [];
}

abbrev past : KnownMiner numbers.F
past = record {
  miner_id = codes "regtest:bcrt1q2nf:attic";
  user_identity = codes "bcrt1q2nf.attic";
  payout_address = codes "bcrt1q2nf";
  label = codes "attic";
  connected = false;
  first_seen_at = 1;
  last_seen_at = 5;
  opened_at = some 1;
  closed_at = some 5;
  uptime_seconds = some 4;
  nominal_hashrate = 0;
  shares_accepted = 9;
  best_diff = 2;
  blocks_found = 0;
  shares_rejected = 0;
}

total-build_miner_workers_example :
    (length (rows_or_none (some (row ∷ [])))
        + length
            (remaining (rows_or_none (some (row ∷ []))) (index_stats [] (stat 7 ∷ stat 8 ∷ [])))
      ≤ total_count (
          build_miner_workers prefixes numbers Network.regtest 50
            (some (row ∷ []))
            (stat 7 ∷ stat 8 ∷ [])
            (past ∷ [])))
    × (total_count (
          build_miner_workers prefixes numbers Network.regtest 50
            (some (row ∷ []))
            (stat 7 ∷ stat 8 ∷ [])
            (past ∷ []))
        ≤ length (rows_or_none (some (row ∷ [])))
          + length
              (remaining (rows_or_none (some (row ∷ []))) (index_stats [] (stat 7 ∷ stat 8 ∷ [])))
          + length (past ∷ []))
total-build_miner_workers_example =
    total-build_miner_workers prefixes numbers Network.regtest 50 (some (row ∷ []))
      (stat 7 ∷ stat 8 ∷ []) (past ∷ [])

-- The miner is listed, then there is no answer, then it is gone.
abbrev answers : List (Answer numbers.F)
answers = (some [], 80) ∷ (none, 70) ∷ (some (row ∷ []), 60) ∷ []

merge_all-IsShown_example :
    IsShown numbers (last_sighting id answers) (get id (merge_all numbers answers))
merge_all-IsShown_example = merge_all-IsShown numbers answers id

abbrev worker_session : ℕ → ℕ → MinerSession numbers.F
worker_session channel uptime = record {
  session_id = codes "1:7";
  client_id = 1;
  channel_id = channel;
  channel_kind = codes "standard";
  hashrate = 100;
  pool_diff = some 1;
  best_diff = 2;
  shares_accepted = 3;
  shares_rejected = 0;
  rejection_percent = 0;
  opened_at = some 10;
  closed_at = none;
  last_seen_at = some 40;
  uptime_seconds = some uptime;
  last_seen_seconds = some 5;
  connected = true;
}

abbrev worker : MinerWorker numbers.F
worker = with_session (worker_session 8 30) (
    with_session (worker_session 7 40)
      (new_worker numbers id (codes "garage") (codes "bcrt1q2nf") user))

finalize_worker_lem_example : IsFinal worker (finalize_worker numbers worker)
finalize_worker_lem_example = finalize_worker_lem numbers worker

past-IsOwn : IsOwn prefixes numbers Network.regtest 50 past
unfolding miner_row_id parse_miner_identity select_address normalize_label validate_payout_address
    canonical_address into trim is_whitespace split_once strip_prefix starts_with read_address
    check_prefix miner_id display text_beq
past-IsOwn = refl

abbrev shown : List (MinerWorker numbers.F)
shown =
    build_miner_workers prefixes numbers Network.regtest 50 (some (row ∷ [])) (stat 7 ∷ stat 8 ∷ [])
      (past ∷ [])

count_id-build_miner_workers_example :
    (count_id id shown ≡ (
      if row_lists prefixes numbers Network.regtest 50 id (row ∷ [])
        || stat_lists prefixes numbers Network.regtest 50 id
            (remaining (row ∷ []) (index_stats [] (stat 7 ∷ stat 8 ∷ [])))
        || known_lists prefixes numbers Network.regtest 50 id (past ∷ [])
      then 1
      else 0))
    × IsSorted worker_before shown
count_id-build_miner_workers_example =
    count_id-build_miner_workers prefixes numbers Network.regtest 50 id (some (row ∷ []))
      (stat 7 ∷ stat 8 ∷ []) (past ∷ []) (past-IsOwn, tt)
