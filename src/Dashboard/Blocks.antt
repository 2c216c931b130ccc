-- ===== src/Dashboard/Blocks.antt =====
-- The last blocks of the chain, from Bitcoin Core, and the cache of them: `recent_blocks_response`.
-- The clock decides which calls end within their timeout; that is a parameter.
use canary_mining.Common.{
  ℕ, zero, suc, ◌+◌, ◌-◌, ◌≤◌, ◌<◌, min, ◌&&◌, ◌≡◌, refl, arith, Bool, true, false, Option, none,
  some, List, [], ◌∷◌, ◌++◌, map, any, retain, first, length, is_empty, if◌then◌else◌, leb, nat_beq,
  ◌==◌, nat_eq, Result, ok, err, map_err, ◌>>=◌,
}
use canary_mining.Common.Text.Basic.{Text}
use canary_mining.Common.Sort.{sort}
use canary_mining.Common.Float.{Float, float_zero}
use canary_mining.Rpc.Decode.{BitcoinCoreRpcError}
use canary_mining.Rpc.Client.{
  RpcLib, BitcoinCoreRpc, VerboseTransaction, VerboseTransactionOutput, VerboseBlock, block_hash,
  verbose_block,
}
use canary_mining.Dashboard.Sessions.{or_else}
use canary_mining.Dashboard.Difficulty.{saturating_add}
use canary_mining.Dashboard.Pools.{PoolAttribution, PoolAssets, detect_block_pool}
pub mod Runs
pub mod Laws

abbrev pub recent_block_limit : ℕ
recent_block_limit = 6

pub record BlockTimelineItem : Type 0 where
  pub height : ℕ
  pub hash : Text
  pub timestamp : ℕ
  pub weight : Option ℕ
  pub transaction_count : Option ℕ
  pub reward_sats : Option ℕ
  pub pool : PoolAttribution

pub record RecentBlocksCache : Type 0 where
  pub chain_height : Option ℕ
  pub blocks : List BlockTimelineItem

-- A call under a timeout: it runs out of time, or it fails.
pub data Timed (E : Type 0) : Type 0 where
  timed_out : Timed E
  failed : E → Timed E

abbrev pub timeout : {E T : Type 0} → Bool → Result E T → Result (Timed E) T
timeout true answer = map_err failed answer
timeout false answer = err timed_out

unfoldable pub first_recent_block_height : ℕ → ℕ
first_recent_block_height chain_height =
    saturating_add chain_height 1 - min recent_block_limit (saturating_add chain_height 1)

abbrev pub in_range : ℕ → ℕ → BlockTimelineItem → Bool
in_range lo hi block = leb lo block.height && leb block.height hi

abbrev pub by_height : BlockTimelineItem → BlockTimelineItem → Bool
by_height left right = leb left.height right.height

abbrev pub last : {A : Type 0} → List A → Option A
last [] = none
last (x ∷ xs) = or_else (last xs) (some x)

unfoldable pub sum_values : (R : Float) → List (VerboseTransactionOutput R.F) → R.F → R.F
sum_values R [] total = total
sum_values R (output ∷ outputs) total = elim output.value [
  | none ↦ sum_values R outputs total
  | some value ↦ sum_values R outputs (R.add total value)
]

unfoldable pub coinbase_reward_sats : (R : Float) → VerboseTransaction R.F → Option ℕ
unfolding sum_values
coinbase_reward_sats R coinbase =
    let total_btc = sum_values R coinbase.vout (float_zero R) in
    if R.is_finite total_btc
    then some (R.to_u64 (R.round (R.mul total_btc (R.literal 100000000 1))))
    else none

abbrev pub reward_of : (R : Float) → Option (VerboseTransaction R.F) → Option ℕ
reward_of R none = none
reward_of R (some coinbase) = coinbase_reward_sats R coinbase

unfoldable pub recent_blocks_complete : Option ℕ → List BlockTimelineItem → Bool
unfolding any
recent_blocks_complete none blocks = is_empty blocks
recent_blocks_complete (some height) blocks = any (λ block. nat_beq block.height height) blocks

abbrev pub same_height : Option ℕ → Option ℕ → Bool
same_height none none = true
same_height none (some b) = false
same_height (some a) none = false
same_height (some a) (some b) = nat_beq a b

-- The first height that is not there yet.
abbrev pub next_height : ℕ → Option BlockTimelineItem → ℕ
next_height first_height none = first_height
next_height first_height (some block) = saturating_add block.height 1

-- What is kept of the blocks that were fetched, and the answer.
abbrev pub settle :
    RecentBlocksCache → ℕ → List BlockTimelineItem → RecentBlocksCache × List BlockTimelineItem
settle cache height blocks =
    if recent_blocks_complete (some height) blocks
    then (record { chain_height = some height; blocks = blocks }, blocks)
    else if is_empty blocks
    then (cache, cache.blocks)
    else (record { chain_height = none; blocks = blocks }, blocks)

abbrev pub settle_fetched :
    RecentBlocksCache
    → ℕ
    → Option (List BlockTimelineItem)
    → Option (RecentBlocksCache × List BlockTimelineItem)
settle_fetched cache height none = none
settle_fetched cache height (some blocks) = some (settle cache height blocks)

-- The loop, on fuel, with the blocks that there are: it stops behind the tip, or at the first block
-- that cannot be fetched.
unfoldable pub fetch_missing :
    {E : Type 0}
    → (ℕ → Result E BlockTimelineItem)
    → ℕ
    → ℕ
    → ℕ
    → List BlockTimelineItem
    → Option (List BlockTimelineItem)
fetch_missing fetch chain_height zero height blocks = none
fetch_missing fetch chain_height (suc fuel) height blocks = elim (leb height chain_height) [
  | true ↦ elim (fetch height) [
    | ok block ↦
        fetch_missing fetch chain_height fuel (saturating_add height 1) (blocks ++ (block ∷ []))
    | err e ↦ some blocks
  ]
  | false ↦ some blocks
]

abbrev pub in_order : ℕ → ℕ → Option (List BlockTimelineItem) → Option (List BlockTimelineItem)
in_order lo hi none = none
in_order lo hi (some blocks) = some (sort by_height (retain (in_range lo hi) blocks))

-- Seven rounds: at most six blocks are fetched.
unfoldable pub fetch_recent_blocks :
    {E : Type 0}
    → (ℕ → Result E BlockTimelineItem)
    → RecentBlocksCache
    → ℕ
    → Option (List BlockTimelineItem)
unfolding retain sort first_recent_block_height fetch_missing
fetch_recent_blocks fetch cache chain_height =
    let first_height = first_recent_block_height chain_height in
    let blocks = sort by_height (retain (in_range first_height chain_height) cache.blocks) in
    in_order first_height chain_height
      (fetch_missing fetch chain_height 7 (next_height first_height (last blocks)) blocks)

unfoldable pub recent_blocks_response :
    {E : Type 0}
    → (ℕ → Result E BlockTimelineItem)
    → RecentBlocksCache
    → Option ℕ
    → Option (RecentBlocksCache × List BlockTimelineItem)
unfolding recent_blocks_complete fetch_recent_blocks
recent_blocks_response fetch cache none = some (cache, cache.blocks)
recent_blocks_response fetch cache (some height) =
    if same_height cache.chain_height (some height)
    then some (cache, cache.blocks)
    else settle_fetched cache height (fetch_recent_blocks fetch cache height)

module _ (R : Float) (L : RpcLib R.F) (client : BitcoinCoreRpc) (A : PoolAssets) (default : Text)
    (in_time : ℕ → Bool) where
  abbrev pub timeline_item : VerboseBlock R.F → BlockTimelineItem
  timeline_item block = record {
    height = block.height;
    hash = block.hash;
    timestamp = block.time;
    weight = block.weight;
    transaction_count = or_else block.n_tx (some (length block.tx));
    reward_sats = reward_of R (first block.tx);
    pool = detect_block_pool A default (first block.tx);
  }

  unfoldable pub fetch_recent_block :
      ℕ → Result (Timed (BitcoinCoreRpcError L.reader.Value)) BlockTimelineItem
  unfolding block_hash verbose_block detect_block_pool
  fetch_recent_block height = do
    block ←
        timeout (in_time height) (do hash ← block_hash L client height; verbose_block L client hash)
    ok (timeline_item block)
