-- ===== src/Dashboard/Difficulty.antt =====
-- `calculate_difficulty_adjustment`.
use canary_mining.Common.{
  ℕ, ◌+◌, ◌-◌, ◌*◌, ◌/◌, ◌%◌, ◌≤◌, ◌<◌, min, ◌&&◌, ◌≡◌, arith, Option, none, some, if◌then◌else◌,
  ltb,
}
use mathlib.Core.Option
use canary_mining.Common.Assoc.Laws.{keep_if}
use canary_mining.Common.Int64.{u64_max}
use canary_mining.Common.Float.{Float, clamp}

abbrev pub difficulty_adjustment_interval_blocks : ℕ
difficulty_adjustment_interval_blocks = 2016

abbrev pub target_block_spacing_seconds : (R : Float) → R.F
target_block_spacing_seconds R = R.literal 600 1

pub record DifficultyAdjustmentStatus (F : Type 0) : Type 0 where
  pub next_height : ℕ
  pub blocks_remaining : ℕ
  pub progress_percent : F
  pub estimated_seconds_remaining : Option ℕ
  pub projected_percent_change : Option F
  pub projected_difficulty : Option F

-- `u64::saturating_add`.
abbrev pub saturating_add : ℕ → ℕ → ℕ
saturating_add a b = min (a + b) u64_max

unfoldable pub next_difficulty_adjustment_height : ℕ → ℕ
next_difficulty_adjustment_height chain_height =
    saturating_add (saturating_add chain_height 1) (difficulty_adjustment_interval_blocks - 1)
    / difficulty_adjustment_interval_blocks
    * difficulty_adjustment_interval_blocks

unfoldable pub blocks_mined_in_period : ℕ → ℕ
blocks_mined_in_period chain_height =
    saturating_add (chain_height % difficulty_adjustment_interval_blocks) 1

-- `Option::zip`, and a function of both.
abbrev pub both : {A B C : Type 0} → (A → B → C) → Option A → Option B → Option C
both f none b = none
both f (some a) none = none
both f (some a) (some b) = some (f a b)

abbrev pub seconds_remaining : (R : Float) → ℕ → Option R.F → Option ℕ
seconds_remaining R blocks none =
    some (R.to_u64 (R.round (R.mul (R.of_u64 blocks) (target_block_spacing_seconds R))))
seconds_remaining R blocks (some seconds) =
    some (R.to_u64 (R.round (R.mul seconds (R.of_u64 blocks))))

unfoldable pub calculate_difficulty_adjustment :
    (R : Float) → ℕ → ℕ → ℕ → Option R.F → DifficultyAdjustmentStatus R.F
unfolding next_difficulty_adjustment_height blocks_mined_in_period clamp
calculate_difficulty_adjustment R chain_height period_start_time now current_difficulty =
    let interval = difficulty_adjustment_interval_blocks in
    let next_height = next_difficulty_adjustment_height chain_height in
    let blocks_remaining = next_height - chain_height in
    let elapsed_blocks = chain_height - chain_height / interval * interval in
    let elapsed_seconds = now - period_start_time in
    let has_pace = ltb 0 elapsed_blocks && ltb 0 elapsed_seconds in
    let average =
      if has_pace
      then some (R.div (R.of_u64 elapsed_seconds) (R.of_u64 elapsed_blocks))
      else none in
    let multiplier =
      if has_pace
      then some (
          clamp R
            (R.div (R.mul (R.of_u64 elapsed_blocks) (target_block_spacing_seconds R))
              (R.of_u64 elapsed_seconds))
            (R.literal 1 4) (R.literal 4 1))
      else none in
    record {
      next_height = next_height;
      blocks_remaining = blocks_remaining;
      progress_percent =
          R.mul (R.div (R.of_u64 (blocks_mined_in_period chain_height)) (R.of_u64 interval))
            (R.literal 100 1);
      estimated_seconds_remaining = seconds_remaining R blocks_remaining average;
      projected_percent_change =
          Option.map (λ m. R.mul (R.sub m (R.literal 1 1)) (R.literal 100 1)) multiplier;
      projected_difficulty = keep_if R.is_finite (both R.mul current_difficulty multiplier);
    }

-- The next adjustment is at a multiple of 2016 above the chain's height, at most 2016 blocks away,
-- and the blocks of the period that are there and those that remain are 2017 together (the last of
-- them starts the next period); provided the height is 2016 or more below the greatest `u64`.
pub next_height_lem :
    (R : Float) (chain_height start now : ℕ) (difficulty : Option R.F)
    → chain_height + 2016 ≤ u64_max
    → let a = calculate_difficulty_adjustment R chain_height start now difficulty in
      (a.next_height % 2016 ≡ 0)
      × (a.next_height ≡ chain_height + a.blocks_remaining)
      × (0 < a.blocks_remaining)
      × (a.blocks_remaining ≤ 2016)
      × (blocks_mined_in_period chain_height + a.blocks_remaining ≡ 2017)
unfolding calculate_difficulty_adjustment next_difficulty_adjustment_height blocks_mined_in_period
next_height_lem R chain_height start now difficulty h =
    (omega arith, omega arith, omega arith, omega arith, omega arith)
