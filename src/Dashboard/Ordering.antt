-- ===== src/Dashboard/Ordering.antt =====
-- The order of the workers orders any two, and is transitive: `sort_by` of `build_miner_workers`.
use canary_mining.Common.{◌≡◌, true, false, arith}
use canary_mining.Common.Text.Basic.{text_beq_iff}
use canary_mining.History.Listing.{text_lt_total, text_lt_trans, text_lt_irrefl}
use canary_mining.Dashboard.Workers.{MinerWorker}
use canary_mining.Dashboard.Building.{worker_before, worker_seen_before, worker_named_before}

named_total :
    {F : Type 0} (a b : MinerWorker F)
    → worker_named_before a b ≡ false
    → worker_named_before b a ≡ true
unfolding worker_named_before
named_total a b h = ground (
  arith,
  text_beq_iff a.label b.label,
  text_beq_iff b.label a.label,
  text_lt_total a.label b.label,
  text_lt_trans a.payout_address b.payout_address a.payout_address,
  text_lt_irrefl a.payout_address,
)

named_trans :
    {F : Type 0} (a b c : MinerWorker F)
    → worker_named_before a b ≡ true
    → worker_named_before b c ≡ true
    → worker_named_before a c ≡ true
unfolding worker_named_before
named_trans a b c g h = ground (
  arith,
  text_beq_iff a.label b.label,
  text_beq_iff b.label c.label,
  text_beq_iff a.label c.label,
  text_lt_trans a.label b.label c.label,
  text_lt_trans a.label b.label a.label,
  text_lt_irrefl a.label,
  text_lt_trans c.payout_address a.payout_address b.payout_address,
  text_lt_total a.payout_address b.payout_address,
)

pub worker_before_total :
    {F : Type 0} (a b : MinerWorker F) → worker_before a b ≡ false → worker_before b a ≡ true
unfolding worker_before worker_seen_before
worker_before_total a b h = ground (arith, named_total a b)

pub worker_before_trans :
    {F : Type 0} (a b c : MinerWorker F)
    → worker_before a b ≡ true
    → worker_before b c ≡ true
    → worker_before a c ≡ true
unfolding worker_before worker_seen_before
worker_before_trans a b c g h = ground (arith, named_trans a b c)
