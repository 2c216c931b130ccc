-- ===== src/Dashboard/Blocks/Laws.antt =====
-- The recent blocks are a run of heights up to the tip of the chain, and the cache agrees with what
-- the dashboard shows.
use canary_mining.Common.{
  ℕ, zero, suc, ◌+◌, ◌-◌, ◌≤◌, ◌<◌, ◌≡◌, refl, sym, subst, arith, true, Option, none, some, List,
  [], ◌∷◌, ◌++◌, length, length-append, leb, ◌⊎◌, inl, inr, Result, ok, err, Result-cases,
  Bool-cases, is_empty, retain,
}
use canary_mining.Common.Int64.{u64_max}
use canary_mining.Dashboard.Difficulty.{saturating_add}
use canary_mining.Dashboard.Blocks.{
  BlockTimelineItem, RecentBlocksCache, first_recent_block_height, in_range, last, next_height,
  fetch_missing, fetch_recent_blocks, in_order, recent_blocks_complete, recent_blocks_response,
  same_height, settle,
}
use canary_mining.Dashboard.Blocks.Runs.{
  IsRun, IsRunWithin, IsRun-append, sort-IsRun, retain-IsRun, retain-IsRun_all, next_height-IsRun,
}

abbrev pub HasTip : Option ℕ → List BlockTimelineItem → Type 0
HasTip none bs = Unit
HasTip (some tip) bs = recent_blocks_complete (some tip) bs ≡ true

-- A cache of a run of blocks, which holds the tip that it names.
abbrev pub IsCache : RecentBlocksCache → Type 0
IsCache cache = ((h : ℕ) × IsRun h cache.blocks) × HasTip cache.chain_height cache.blocks

abbrev pub IsAnswer : Option (RecentBlocksCache × List BlockTimelineItem) → Type 0
IsAnswer answer =
    (cache : RecentBlocksCache) × (answer ≡ some (cache, cache.blocks)) × IsCache cache

abbrev pub IsBelow : Option ℕ → Type 0
IsBelow none = Unit
IsBelow (some tip) = tip < u64_max

module _ {E : Type 0} (fetch : ℕ → Result E BlockTimelineItem) where
  -- The blocks reach the tip, or the one behind them could not be fetched.
  abbrev pub Reaches : ℕ → ℕ → List BlockTimelineItem → Type 0
  Reaches tip k bs = (k + length bs ≡ suc tip) ⊎ ((e : E) × (fetch (k + length bs) ≡ err e))

  abbrev pub IsRecent : ℕ → List BlockTimelineItem → Type 0
  IsRecent tip bs =
      (k : ℕ) × IsRun k bs
      × (first_recent_block_height tip ≤ k)
      × (k + length bs ≤ suc tip)
      × Reaches tip k bs

module _ {E : Type 0} (fetch : ℕ → Result E BlockTimelineItem)
    (fetched : (h : ℕ) (b : BlockTimelineItem) → fetch h ≡ ok b → b.height ≡ h) where
  Filled : ℕ → ℕ → Option (List BlockTimelineItem) → Type 0
  Filled tip k o =
      (bs : List BlockTimelineItem) × (o ≡ some bs)
      × IsRun k bs
      × (k + length bs ≤ suc tip)
      × Reaches fetch tip k bs

  fetch_missing-Filled :
      (tip fuel k : ℕ) (bs : List BlockTimelineItem)
      → tip < u64_max
      → IsRun k bs
      → k + length bs ≤ suc tip
      → suc tip - (k + length bs) < fuel
      → Filled tip k (fetch_missing fetch tip fuel (k + length bs) bs)
  unfolding fetch_missing Filled
  fetch_missing-Filled tip zero k bs t r p q = absurd (omega (arith, q))
  fetch_missing-Filled tip (suc fuel) k bs t r p q = elim (Bool-cases (leb (k + length bs) tip)) [
    | inr e ↦ rw (fetch_missing, e) (bs, refl, r, p, inl (ground (arith, e, p)))
    | inl e ↦
        let below : k + length bs ≤ tip = ground (arith, e) in
        elim (Result-cases (fetch (k + length bs))) [
          | inl (b, f) ↦
              let longer : k + length (bs ++ (b ∷ [])) ≡ suc (k + length bs) =
                omega (arith, length-append bs (b ∷ [])) in
              let next : saturating_add (k + length bs) 1 ≡ k + length (bs ++ (b ∷ [])) =
                omega (arith, longer, below, t) in
              rw (fetch_missing, e, f, next)
                (fetch_missing-Filled tip fuel k (bs ++ (b ∷ [])) t
                  (IsRun-append k bs b r (fetched (k + length bs) b f))
                  (omega (arith, longer, below)) (omega (arith, longer, q)))
          | inr (x, f) ↦ rw (fetch_missing, e, f) (bs, refl, r, p, inr (x, f))
        ]
  ]

  -- Seven rounds of fuel are enough from the first height or behind a run within the range.
  fill :
      (tip : ℕ) (bs : List BlockTimelineItem)
      → tip < u64_max
      → IsRunWithin (first_recent_block_height tip) tip bs
      → (k : ℕ) × (first_recent_block_height tip ≤ k)
        × Filled tip k
            (fetch_missing fetch tip 7 (next_height (first_recent_block_height tip) (last bs)) bs)
  unfolding first_recent_block_height
  fill tip [] t w =
      let h = first_recent_block_height tip in
      (
        h,
        omega arith,
        subst (λ n. Filled tip h (fetch_missing fetch tip 7 n [])) (omega arith)
            (fetch_missing-Filled tip 7 h [] t tt (omega arith) (omega arith)),
      )
  fill tip (b ∷ bs) t w =
      let (k, run, low, high) = w in
      (
        k,
        low,
        subst (λ n. Filled tip k (fetch_missing fetch tip 7 n (b ∷ bs)))
            (sym (
              next_height-IsRun k b bs run (omega (arith, high, t))
                (first_recent_block_height tip)))
            (fetch_missing-Filled tip 7 k (b ∷ bs) t run high (omega (arith, low, high))),
      )

  ordered :
      (tip k : ℕ) (o : Option (List BlockTimelineItem))
      → first_recent_block_height tip ≤ k
      → Filled tip k o
      → (bs : List BlockTimelineItem) × (in_order (first_recent_block_height tip) tip o ≡ some bs)
        × IsRecent fetch tip bs
  unfolding Filled
  ordered tip k o low f =
      let (bs, e, run, high, reach) = f in
      (
        bs,
        rw
            (
              e,
              retain-IsRun_all (first_recent_block_height tip) tip k bs run low high,
              sort-IsRun k bs run,
            )
            refl,
        (k, run, low, high, reach),
      )

  -- The blocks of a run are recent blocks: the loop ends, and what it leaves is a run of heights among
  -- the last six up to the tip, which ends at the tip or where a block could not be fetched; given that
  -- Bitcoin Core answers with the block that it is asked for, and that the tip is below the greatest `u64`.
  pub fetch_recent_blocks-IsRecent :
      (cache : RecentBlocksCache) (h tip : ℕ)
      → IsRun h cache.blocks
      → tip < u64_max
      → (bs : List BlockTimelineItem) × (fetch_recent_blocks fetch cache tip ≡ some bs)
        × IsRecent fetch tip bs
  unfolding fetch_recent_blocks first_recent_block_height
  fetch_recent_blocks-IsRecent cache h tip r t =
      let low = first_recent_block_height tip in
      let w = retain-IsRun low tip h cache.blocks r (omega arith) in
      let kept = retain (in_range low tip) cache.blocks in
      let (k, above, filled) = fill tip kept t w in
      rw (sort-IsRun w.0 kept w.1)
        (ordered tip k (fetch_missing fetch tip 7 (next_height low (last kept)) kept) above filled)

  settled :
      (cache : RecentBlocksCache) (tip k : ℕ) (bs : List BlockTimelineItem)
      → IsCache cache
      → IsRun k bs
      → IsAnswer (some (settle cache tip bs))
  settled cache tip k bs c r = elim (Bool-cases (recent_blocks_complete (some tip) bs)) [
    | inl e ↦ rw e (record { chain_height = some tip; blocks = bs }, refl, ((k, r), e))
    | inr e ↦ elim (Bool-cases (is_empty bs)) [
      | inl empty ↦ rw (e, empty) (cache, refl, c)
      | inr full ↦ rw (e, full) (record { chain_height = none; blocks = bs }, refl, ((k, r), tt))
    ]
  ]

  -- Every answer is what the cache then holds, and the cache remains a run of blocks that holds the
  -- tip that it names; under the same two conditions, the second on the tip that is known.
  pub recent_blocks_response-IsCache :
      (cache : RecentBlocksCache) (tip : Option ℕ)
      → IsCache cache
      → IsBelow tip
      → IsAnswer (recent_blocks_response fetch cache tip)
  unfolding recent_blocks_response
  recent_blocks_response-IsCache cache none c t = (cache, refl, c)
  recent_blocks_response-IsCache cache (some tip) c t =
      elim (Bool-cases (same_height cache.chain_height (some tip))) [
        | inl e ↦ rw e (cache, refl, c)
        | inr e ↦
            let (bs, f, recent) = fetch_recent_blocks-IsRecent cache c.0.0 tip c.0.1 t in
            rw (e, f) (settled cache tip recent.0 bs c recent.1)
      ]
