-- ===== src/Dashboard/Pools/Laws.antt =====
-- Which pool a block is attributed to, by what its first transaction pays and says.
use canary_mining.Common.{
  ◌≡◌, refl, Bool, true, false, Option, none, some, List, [], ◌∷◌, ◌++◌, Bool-cases, All, ap, inl,
  inr,
}
use canary_mining.Common.Text.Basic.{Text}
use canary_mining.Rpc.Client.{VerboseTransaction}
use canary_mining.Dashboard.Pools.{
  PoolAttribution, MempoolPoolEntry, PoolAssets, unknown_pool, canary_pool, find_pool,
  lists_address, pays_default, first_address, script_sig, attributed,
  mempool_pool_matches_script_sig, mempool_pool_attribution, detect_block_pool,
}

-- No entry passes.
abbrev pub NonePasses : (MempoolPoolEntry → Bool) → List MempoolPoolEntry → Type 0
NonePasses p pools = All (λ pool. p pool ≡ false) pools

-- The first entry of a list that passes a test, between those before it and those behind it.
pub record IsFirst (p : MempoolPoolEntry → Bool) (pool : MempoolPoolEntry)
    (pools : List MempoolPoolEntry) : Type 0 where
  pub before : List MempoolPoolEntry
  pub behind : List MempoolPoolEntry
  pub split : pools ≡ before ++ (pool ∷ behind)
  pub passes : p pool ≡ true
  pub fails_before : NonePasses p before

Found : (MempoolPoolEntry → Bool) → List MempoolPoolEntry → Option MempoolPoolEntry → Type 0
Found p pools none = NonePasses p pools
Found p pools (some pool) = IsFirst p pool pools

Found-cons :
    (p : MempoolPoolEntry → Bool) (q : MempoolPoolEntry) (pools : List MempoolPoolEntry)
    (o : Option MempoolPoolEntry)
    → p q ≡ false
    → Found p pools o
    → Found p (q ∷ pools) o
unfolding Found
Found-cons p q pools none e f = (e, f)
Found-cons p q pools (some pool) e f = record {
  before = q ∷ f.before;
  behind = f.behind;
  split = ap (◌∷◌ q) f.split;
  passes = f.passes;
  fails_before = (e, f.fails_before);
}

find_pool-Found :
    (A : PoolAssets) (p : MempoolPoolEntry → Bool) (pools : List MempoolPoolEntry)
    → Found p pools (find_pool A p pools)
unfolding find_pool Found
find_pool-Found A p [] = tt
find_pool-Found A p (q ∷ pools) = elim (Bool-cases (p q)) [
  | inl e ↦
      rw (find_pool, e)
        (record { before = []; behind = pools; split = refl; passes = e; fails_before = tt })
  | inr e ↦
      rw (find_pool, e) (Found-cons p q pools (find_pool A p pools) e (find_pool-Found A p pools))
]

module _ (A : PoolAssets) {F : Type 0} (default : Text) (coinbase : VerboseTransaction F) where
  abbrev pub by_address : MempoolPoolEntry → Bool
  by_address = lists_address A (first_address A coinbase)

  abbrev pub by_script : MempoolPoolEntry → Bool
  by_script pool = mempool_pool_matches_script_sig A pool (script_sig A coinbase)

  -- Canary's own block; or one of the first pool that lists the address; or, if none does, one of the
  -- first pool with a tag in the script; or unknown.
  pub data IsAttributed : PoolAttribution → Type 0 where
    own : pays_default A default (first_address A coinbase) ≡ true → IsAttributed canary_pool
    address :
        (pool : MempoolPoolEntry)
        → pays_default A default (first_address A coinbase) ≡ false
        → IsFirst by_address pool A.registry
        → IsAttributed (mempool_pool_attribution A pool)
    tag :
        (pool : MempoolPoolEntry)
        → pays_default A default (first_address A coinbase) ≡ false
        → NonePasses by_address A.registry
        → IsFirst by_script pool A.registry
        → IsAttributed (mempool_pool_attribution A pool)
    unknown :
        pays_default A default (first_address A coinbase) ≡ false
        → NonePasses by_address A.registry
        → NonePasses by_script A.registry
        → IsAttributed unknown_pool

  listed :
      (by : Option MempoolPoolEntry) (script : Option MempoolPoolEntry)
      → pays_default A default (first_address A coinbase) ≡ false
      → Found by_address A.registry by
      → Found by_script A.registry script
      → IsAttributed (attributed A by (attributed A script unknown_pool))
  unfolding Found
  listed (some pool) script e f g = address pool e f
  listed none (some pool) e f g = tag pool e f g
  listed none none e f g = unknown e f g

  -- A block with a first transaction is attributed by these rules, in their order.
  pub detect_block_pool-IsAttributed : IsAttributed (detect_block_pool A default (some coinbase))
  unfolding detect_block_pool
  detect_block_pool-IsAttributed =
      elim (Bool-cases (pays_default A default (first_address A coinbase))) [
        | inl e ↦ rw e (own e)
        | inr e ↦ rw e (
            listed (find_pool A by_address A.registry) (find_pool A by_script A.registry) e
              (find_pool-Found A by_address A.registry) (find_pool-Found A by_script A.registry))
      ]
