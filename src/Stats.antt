-- ===== src/Stats.antt =====
-- The registry of miner sessions: vendor/pool_sv2/src/lib/miner_stats.rs. The clock is an argument
-- of each call; a call gives back the registry and the events that it sends.
pub mod Sessions
pub mod Calls
pub mod Timing
pub mod Retention
pub mod Cells
pub mod Tally
use canary_mining.Common.{
  ℕ, ◌+◌, ◌-◌, ◌*◌, ◌%◌, Bool, true, false, not, ◌&&◌, ◌||◌, ◌≡◌, ◌↔◌, arith, Option, none, some,
  List, [], ◌∷◌, map, if◌then◌else◌, leb, ltb, is_some, is_none, retain, any, Eq, ◌==◌, nat_eq,
  nat_beq,
}
use canary_mining.Common.Assoc.{get, insert, update}
use canary_mining.Common.Text.Basic.{Text, codes, text_eq}
use canary_mining.Common.Int64.{u64_mod}
use canary_mining.Common.Float.{Float, float_zero}

abbrev pub closed_session_retention_secs : ℕ
closed_session_retention_secs = 7 * 24 * 60 * 60

pub data MinerChannelKind : Type 0 where
  standard extended : MinerChannelKind

unfoldable pub as_str : MinerChannelKind → Text
as_str standard = codes "standard"
as_str extended = codes "extended"

abbrev pub kind_beq : MinerChannelKind → MinerChannelKind → Bool
kind_beq standard standard = true
kind_beq extended extended = true
kind_beq _ _ = false

pub record MinerSessionKey : Type 0 where
  pub downstream_id : ℕ
  pub channel_id : ℕ
  pub channel_kind : MinerChannelKind

abbrev pub key_beq : MinerSessionKey → MinerSessionKey → Bool
key_beq a b =
    nat_beq a.downstream_id b.downstream_id
    && nat_beq a.channel_id b.channel_id
    && kind_beq a.channel_kind b.channel_kind

pub key_beq_iff : (a b : MinerSessionKey) → (key_beq a b ≡ true) ↔ (a ≡ b)
key_beq_iff a b = ground arith

instance abbrev pub key_eq : Eq MinerSessionKey
key_eq = record { beq = key_beq; beq_iff = key_beq_iff }

pub record MinerSessionStats (F : Type 0) : Type 0 where
  pub downstream_id : ℕ
  pub channel_id : ℕ
  pub channel_kind : MinerChannelKind
  pub user_identity : Text
  pub opened_at : ℕ
  pub closed_at : Option ℕ
  pub last_seen_at : ℕ
  pub nominal_hashrate : F
  pub shares_accepted : ℕ
  pub best_diff : F
  pub blocks_found : ℕ
  pub shares_rejected : ℕ
  pub shares_rejected_by_reason : List (Text × ℕ)

-- `MinerStatsRegistry`: the map behind the lock, whether a panic has poisoned the lock, and whether
-- there is a sender.
pub record Registry (F : Type 0) : Type 0 where
  pub sessions : List (MinerSessionKey × MinerSessionStats F)
  pub poisoned : Bool
  pub has_sender : Bool

-- `MinerStatsEvent`.
pub data Event (F : Type 0) : Type 0 where
  channel_opened : MinerSessionKey → Text → F → ℕ → Event F
  channel_closed : MinerSessionKey → ℕ → Event F
  downstream_closed : ℕ → ℕ → Event F
  share_accepted : MinerSessionKey → ℕ → F → ℕ → ℕ → Event F
  share_rejected : MinerSessionKey → Text → ℕ → ℕ → Event F
  block_found : MinerSessionKey → Text → ℕ → ℕ → Event F

-- `*entry(reason).or_default() += 1`.
unfoldable pub count_reason : Text → List (Text × ℕ) → List (Text × ℕ)
count_reason reason counts = elim (get reason counts) [
  | none ↦ insert reason 1 counts
  | some n ↦ insert reason ((n + 1) % u64_mod) counts
]

module _ {F : Type 0} where
  unfoldable pub emit : Registry F → Event F → List (Event F)
  emit r event = if r.has_sender then event ∷ [] else []

  -- `if let Ok(mut sessions) = self.sessions.write()`.
  unfoldable pub write :
      Registry F
      → (List (MinerSessionKey × MinerSessionStats F)
          → List (MinerSessionKey × MinerSessionStats F))
      → Registry F
  write r f = if r.poisoned then r else record r { sessions = f r.sessions }

  -- The session under a key, if the lock is not poisoned.
  unfoldable pub session : Registry F → MinerSessionKey → Option (MinerSessionStats F)
  session r k = if r.poisoned then none else get k r.sessions

  unfoldable pub record_share_seen : Registry F → MinerSessionKey → ℕ → Registry F
  unfolding write
  record_share_seen r k now = write r (update k (λ stats. record stats { last_seen_at = now }))

  abbrev pub reject : Text → ℕ → MinerSessionStats F → MinerSessionStats F
  reject reason now stats = record stats {
    last_seen_at = now;
    shares_rejected = (stats.shares_rejected + 1) % u64_mod;
    shares_rejected_by_reason = count_reason reason stats.shares_rejected_by_reason;
  }

  unfoldable pub record_share_rejected :
      Registry F → MinerSessionKey → Text → ℕ → Registry F × List (Event F)
  unfolding write session emit
  record_share_rejected r k reason now =
      let rejected : ℕ = elim (session r k) [
        | none ↦ 0
        | some stats ↦ (stats.shares_rejected + 1) % u64_mod
      ] in
      (
        write r (update k (reject reason now)),
        if ltb 0 rejected then emit r (share_rejected k reason rejected now) else [],
      )

  unfoldable pub record_share_accepted :
      Registry F → MinerSessionKey → ℕ → F → ℕ → ℕ → Registry F × List (Event F)
  unfolding write emit
  record_share_accepted r k shares best blocks now = (
    write r (
        update k (λ stats. record stats {
          last_seen_at = now;
          shares_accepted = shares;
          best_diff = best;
          blocks_found = blocks;
        })),
    emit r (share_accepted k shares best blocks now),
  )

  unfoldable pub record_block_found :
      Registry F → MinerSessionKey → Text → ℕ → ℕ → Registry F × List (Event F)
  unfolding emit
  record_block_found r k hash blocks now = (r, emit r (block_found k hash blocks now))

  abbrev pub close : ℕ → MinerSessionStats F → MinerSessionStats F
  close now stats = record stats { closed_at = some now; last_seen_at = now }

  unfoldable pub record_channel_closed :
      Registry F → MinerSessionKey → ℕ → Registry F × List (Event F)
  unfolding write session emit
  record_channel_closed r k now = (
    write r (update k (close now)),
    if is_some (session r k) then emit r (channel_closed k now) else [],
  )

  abbrev pub is_open_of : ℕ → MinerSessionStats F → Bool
  is_open_of downstream stats = stats.downstream_id == downstream && is_none stats.closed_at

  abbrev pub close_of : ℕ → ℕ → MinerSessionStats F → MinerSessionStats F
  close_of downstream now stats = if is_open_of downstream stats then close now stats else stats

  unfoldable pub record_downstream_closed : Registry F → ℕ → ℕ → Registry F × List (Event F)
  unfolding write emit
  record_downstream_closed r downstream now = (
    write r (map (λ e. (e.0, close_of downstream now e.1))),
    if not r.poisoned && any (λ e. is_open_of downstream e.1) r.sessions
        then emit r (downstream_closed downstream now)
        else [],
  )

abbrev pub new_session : (R : Float) → MinerSessionKey → Text → R.F → ℕ → MinerSessionStats R.F
new_session R k user_identity hashrate now = record {
  downstream_id = k.downstream_id;
  channel_id = k.channel_id;
  channel_kind = k.channel_kind;
  user_identity = user_identity;
  opened_at = now;
  closed_at = none;
  last_seen_at = now;
  nominal_hashrate = hashrate;
  shares_accepted = 0;
  best_diff = float_zero R;
  blocks_found = 0;
  shares_rejected = 0;
  shares_rejected_by_reason = [];
}

unfoldable pub record_channel_opened :
    (R : Float) → Registry R.F → MinerSessionKey → Text → R.F → ℕ → Registry R.F × List (Event R.F)
unfolding write emit
record_channel_opened R r k user_identity hashrate now = (
  write r (insert k (new_session R k user_identity hashrate now)),
  emit r (channel_opened k user_identity hashrate now),
)
