-- ===== src/Dashboard/Overview/Laws.antt =====
-- The status as a whole: it is always answered, and the caches stay sound.
use canary_mining.Common.{ℕ, ◌≡◌, refl, some, map, ok}
use mathlib.Core.List.{Perm}
use canary_mining.Common.Float.{Float}
use canary_mining.Common.Sort.{sort-perm}
use canary_mining.Dashboard.Endpoints.{UiState}
use canary_mining.Dashboard.Blocks.{BlockTimelineItem}
use canary_mining.Dashboard.Blocks.Laws.{IsCache, IsBelow, recent_blocks_response-IsCache}
use canary_mining.Dashboard.Core.Laws.{IsStatus, fetch_bitcoin_core_status-IsStatus}
use canary_mining.Dashboard.Overview.{
  StatusResponse, Libraries, Moment, block_at, core_status, state_after, response_of, shown_before,
  sorted_miner_rows, fetch_connected_miners, api_status,
}

module _ (R : Float) (S : Libraries R) (M : Moment R S) where
  -- The response belongs to the state that is left.
  pub record IsOverview (s : UiState R.F) (r : StatusResponse R.F S.json.Value) : Type 0 where
    pub cache : IsCache s.recent_blocks
    pub blocks : r.recent_blocks ≡ s.recent_blocks.blocks
    pub miners : Perm r.connected_miners (map (λ entry. entry.1) s.seen_miners)
    pub status : IsStatus M.snapshot r.bitcoin_core

  -- A status is always answered: the blocks shown are those of the cache, which stays sound, every miner
  -- seen is shown once, and the status of the node says when it is ready; given a sound cache, and that
  -- Bitcoin Core answers with the block that it is asked for and a height below the greatest `u64`.
  pub api_status-IsOverview :
      (s : UiState R.F)
      → IsCache s.recent_blocks
      → ((h : ℕ) (b : BlockTimelineItem) → block_at R S M s h ≡ ok b → b.height ≡ h)
      → IsBelow (core_status R S M s).1.chain_height
      → (s' : UiState R.F) × (r : StatusResponse R.F S.json.Value) × (api_status R S M s
          ≡ some (s', r))
        × IsOverview s' r
  unfolding api_status fetch_connected_miners sorted_miner_rows
  api_status-IsOverview s c fetched below =
      let (cache, e, sound) =
        recent_blocks_response-IsCache (block_at R S M s) fetched s.recent_blocks
          (core_status R S M s).1.chain_height c below in
      rw e (
        state_after R S M s cache,
        response_of R S M s cache.blocks,
        refl,
        record {
          cache = sound;
          blocks = refl;
          miners = sort-perm shown_before _;
          status =
              fetch_bitcoin_core_status-IsStatus R S.rpc s.bitcoin_core_rpc S.as_str S.as_array
                M.call_in_time M.now M.snapshot s.difficulty_period_start;
        },
      )
