-- ===== src/Dashboard/Core/Laws.antt =====
-- The difficulty period is looked up once, and when the node counts as ready for mining.
use canary_mining.Common.{
  ℕ, ◌*◌, ◌/◌, ◌≡◌, ◌≢◌, ◌↔◌, refl, ap, ◌∙◌, arith, Bool, true, false, Option, none, some, List,
  is_some, Option-cases, ok, err, inl, inr,
}
use canary_mining.Common.Text.Basic.{Text}
use canary_mining.Common.Float.{Float}
use canary_mining.Activity.Template.{TemplateStatusSnapshot}
use canary_mining.Rpc.Client.{RpcLib, BitcoinCoreRpc, BlockchainInfo, blockchain_info, Answer}
use canary_mining.Dashboard.Template.{cached_block_template_status}
use canary_mining.Dashboard.Difficulty.{DifficultyAdjustmentStatus, calculate_difficulty_adjustment}
use canary_mining.Dashboard.Core.{
  DifficultyPeriodStartCache, BitcoinCoreStatus, StatusCall, chain_info,
  cached_difficulty_period_start_time, period_start_height, adjusted, fetch_difficulty_adjustment,
  fetch_bitcoin_core_status, status_of, rpc_with_timeout,
}

IsPeriod :
    (R : Float)
    → ℕ
    → ℕ
    → Option R.F
    → DifficultyAdjustmentStatus R.F
    → DifficultyPeriodStartCache
    → Type 0
IsPeriod R chain_height now difficulty status kept =
    (time : ℕ) × (status ≡ calculate_difficulty_adjustment R chain_height time now difficulty)
    × (cached_difficulty_period_start_time kept (period_start_height chain_height) ≡ some time)

from_block :
    (R : Float) (chain_height now : ℕ) (difficulty : Option R.F)
    (cache : DifficultyPeriodStartCache) (status : DifficultyAdjustmentStatus R.F) (o : Option ℕ)
    → (adjusted R chain_height now difficulty cache o).1 ≡ some status
    → IsPeriod R chain_height now difficulty status
        (adjusted R chain_height now difficulty cache o).0
unfolding IsPeriod cached_difficulty_period_start_time
from_block R chain_height now difficulty cache status none h = absurd cc
from_block R chain_height now difficulty cache status (some time) h = (time, cc, ground arith)

known :
    (R : Float) (block_time : ℕ → Option ℕ) (chain_height now : ℕ) (difficulty : Option R.F)
    (cache : DifficultyPeriodStartCache) (status : DifficultyAdjustmentStatus R.F)
    → (fetch_difficulty_adjustment R block_time chain_height now difficulty cache).1 ≡ some status
    → IsPeriod R chain_height now difficulty status
        (fetch_difficulty_adjustment R block_time chain_height now difficulty cache).0
unfolding fetch_difficulty_adjustment IsPeriod
known R block_time chain_height now difficulty cache status =
    elim (Option-cases
      (cached_difficulty_period_start_time cache (period_start_height chain_height))) [
        | inl e ↦
            rw (fetch_difficulty_adjustment, e)
              (from_block R chain_height now difficulty cache status
                (block_time (period_start_height chain_height)))
        | inr (time, e) ↦ rw (fetch_difficulty_adjustment, e) (λ h. (time, cc, e))
      ]

reused :
    (R : Float) (later_time : ℕ → Option ℕ) (later_height later_now : ℕ)
    (later_difficulty : Option R.F) (kept : DifficultyPeriodStartCache) (time : ℕ)
    → cached_difficulty_period_start_time kept (period_start_height later_height) ≡ some time
    → fetch_difficulty_adjustment R later_time later_height later_now later_difficulty kept ≡ (
      kept,
      some (calculate_difficulty_adjustment R later_height time later_now later_difficulty),
    )
unfolding fetch_difficulty_adjustment
reused R later_time later_height later_now later_difficulty kept time e =
    rw (fetch_difficulty_adjustment, e) refl

-- Once the start of a difficulty period is known, every later fetch in the same period gives the
-- adjustment from the same time, whatever Bitcoin Core then answers, and leaves the cache as it is.
pub fetch_difficulty_adjustment-again :
    (R : Float) (block_time later_time : ℕ → Option ℕ) (chain_height now later_height later_now : ℕ)
    (difficulty later_difficulty : Option R.F) (cache : DifficultyPeriodStartCache)
    (status : DifficultyAdjustmentStatus R.F)
    → (fetch_difficulty_adjustment R block_time chain_height now difficulty cache).1 ≡ some status
    → later_height / 2016 ≡ chain_height / 2016
    → let kept = (fetch_difficulty_adjustment R block_time chain_height now difficulty cache).0 in
      (time : ℕ) × (status ≡ calculate_difficulty_adjustment R chain_height time now difficulty)
      × (fetch_difficulty_adjustment R later_time later_height later_now later_difficulty kept ≡ (
        kept,
        some (calculate_difficulty_adjustment R later_height time later_now later_difficulty),
      ))
unfolding IsPeriod
fetch_difficulty_adjustment-again R block_time later_time chain_height now later_height later_now
      difficulty later_difficulty cache status h same =
    let kept = (fetch_difficulty_adjustment R block_time chain_height now difficulty cache).0 in
    let (time, e, c) = known R block_time chain_height now difficulty cache status h in
    (
      time,
      e,
      reused R later_time later_height later_now later_difficulty kept time
          (ap (λ n. cached_difficulty_period_start_time kept (n * 2016)) same ∙ c),
    )

-- What the status says of the template and of the chain.
abbrev pub IsStatus :
    {F : Type 0} → Option (TemplateStatusSnapshot F) → BitcoinCoreStatus F → Type 0
IsStatus snapshot s =
    ((s.mining_ready ≡ true) ↔ ((is_some snapshot ≡ true) × (s.initial_block_download ≢ some true)))
    × ((s.mining_ready ≡ true) ↔ (is_some s.template ≡ true))
    × ((s.chain_height ≡ none) ↔ (s.rpc_available ≡ false))

module _ (R : Float) (L : RpcLib R.F) (client : BitcoinCoreRpc)
    (as_str : L.reader.Value → Option Text)
    (as_array : L.reader.Value → Option (List L.reader.Value)) (in_time : StatusCall → Bool) where
  status_of-IsStatus :
      (now : ℕ) (snapshot : Option (TemplateStatusSnapshot R.F))
      (cache : DifficultyPeriodStartCache) (answer : Answer L (BlockchainInfo R.F L.reader.Value))
      → IsStatus snapshot
          (status_of R L client as_str as_array in_time now cache
            (cached_block_template_status snapshot)
            answer).1
  unfolding cached_block_template_status
  status_of-IsStatus now none cache (err x) = (ground arith, ground arith, ground arith)
  status_of-IsStatus now (some t) cache (err x) = (ground arith, ground arith, ground arith)
  status_of-IsStatus now none cache (ok chain) = (ground arith, ground arith, ground arith)
  status_of-IsStatus now (some t) cache (ok chain) = (ground arith, ground arith, ground arith)

  -- The node counts as ready for mining exactly if there is a template and Bitcoin Core does not say
  -- that it is still downloading blocks; exactly then a template is shown; and the height of the chain
  -- is unknown exactly if Bitcoin Core could not be asked.
  pub fetch_bitcoin_core_status-IsStatus :
      (now : ℕ) (snapshot : Option (TemplateStatusSnapshot R.F))
      (cache : DifficultyPeriodStartCache)
      → IsStatus snapshot
          (fetch_bitcoin_core_status R L client as_str as_array in_time now snapshot cache).1
  unfolding fetch_bitcoin_core_status
  fetch_bitcoin_core_status-IsStatus now snapshot cache =
      status_of-IsStatus now snapshot cache
        (rpc_with_timeout in_time chain_info (blockchain_info L client))
