-- ===== src/Stats/Timing.antt =====
-- The registry under every sequence of its calls: keys, times and the map of sessions stay coherent.
use canary_mining.Common.{
  ℕ, ◌≤◌, Bool, ◌≡◌, arith, Option, none, some, List, [], ◌∷◌, retain, nat_eq, All, All-retain,
  All-weaken, Bool-cases, inl, inr,
}
use canary_mining.Common.Assoc.{insert, update}
use canary_mining.Common.Assoc.Laws.{
  Distinct, Distinct-insert, Distinct-update, Distinct-map_values, Distinct-retain, All-insert,
  All-update, All-map_values, map_values,
}
use canary_mining.Common.Float.{Float}
use canary_mining.Stats.{
  MinerSessionKey, key_eq, MinerSessionStats, Registry, write, close_of, record_share_seen,
  record_share_rejected, record_share_accepted, record_block_found, record_channel_closed,
  record_downstream_closed, record_channel_opened,
}
use canary_mining.Stats.Calls.{
  Call, opened, seen, rejected, accepted, block, channel_ended, downstream_ended, listed, forgotten,
  step, run,
}
use canary_mining.Stats.Sessions.{snapshots, forget_closed_sessions_for_user}

-- The times of the calls do not go back, and start at or after `t`.
abbrev pub IsTimeline : {A : Type 0} → ℕ → List (ℕ × A) → Type 0
IsTimeline t [] = Unit
IsTimeline t ((now, c) ∷ cs) = (t ≤ now) × IsTimeline now cs

abbrev pub ClosedBy : ℕ → ℕ → Option ℕ → Type 0
ClosedBy start last none = Unit
ClosedBy start last (some c) = (start ≤ c) × (c ≤ last)

-- A session stands under its own key, was opened before it was last seen, and closed in between; and
-- nothing lies after `t`.
pub record IsTimed {F : Type 0} (t : ℕ) (e : MinerSessionKey × MinerSessionStats F) : Type 0 where
  pub downstream : e.1.downstream_id ≡ e.0.downstream_id
  pub channel : e.1.channel_id ≡ e.0.channel_id
  pub kind : e.1.channel_kind ≡ e.0.channel_kind
  pub opened_seen : e.1.opened_at ≤ e.1.last_seen_at
  pub seen_now : e.1.last_seen_at ≤ t
  pub closed_seen : ClosedBy e.1.opened_at e.1.last_seen_at e.1.closed_at

pub record IsCoherent {F : Type 0} (t : ℕ) (r : Registry F) : Type 0 where
  pub distinct : Distinct r.sessions
  pub timed : All (IsTimed t) r.sessions

module _ {F : Type 0} where
  IsTimed-later :
      {t now : ℕ} (e : MinerSessionKey × MinerSessionStats F)
      → t ≤ now
      → IsTimed t e
      → IsTimed now e
  IsTimed-later e le h = ground arith

  pub IsCoherent-later : {t now : ℕ} {r : Registry F} → t ≤ now → IsCoherent t r → IsCoherent now r
  IsCoherent-later {r = r} le v = record {
    distinct = v.distinct;
    timed = All-weaken _ _ (λ e. IsTimed-later e le) r.sessions v.timed;
  }

  -- A change of the map that keeps it coherent keeps the registry so, behind the lock.
  write-IsCoherent :
      {now : ℕ} {r : Registry F}
      (f : List (MinerSessionKey × MinerSessionStats F)
        → List (MinerSessionKey × MinerSessionStats F))
      → (Distinct r.sessions → Distinct (f r.sessions))
      → (All (IsTimed now) r.sessions → All (IsTimed now) (f r.sessions))
      → IsCoherent now r
      → IsCoherent now (write r f)
  unfolding write
  write-IsCoherent {r = r} f d a v = elim (Bool-cases r.poisoned) [
    | inl p ↦ simp p v
    | inr p ↦ simp p (record { distinct = d v.distinct; timed = a v.timed })
  ]

  update-IsCoherent :
      {now : ℕ} {r : Registry F} (k : MinerSessionKey)
      (f : MinerSessionStats F → MinerSessionStats F)
      → ((j : MinerSessionKey) (s : MinerSessionStats F)
          → IsTimed now (j, s)
          → IsTimed now (j, f s))
      → IsCoherent now r
      → IsCoherent now (write r (update k f))
  update-IsCoherent {r = r} k f keep =
      write-IsCoherent (update k f) (Distinct-update k f r.sessions)
        (All-update (IsTimed _) k f keep r.sessions)

  map-IsCoherent :
      {now : ℕ} {r : Registry F} (f : MinerSessionStats F → MinerSessionStats F)
      → ((j : MinerSessionKey) (s : MinerSessionStats F)
          → IsTimed now (j, s)
          → IsTimed now (j, f s))
      → IsCoherent now r
      → IsCoherent now (write r (map_values f))
  map-IsCoherent {r = r} f keep =
      write-IsCoherent (map_values f) (Distinct-map_values f r.sessions)
        (All-map_values (IsTimed _) f keep r.sessions)

  retain-IsCoherent :
      {now : ℕ} {r : Registry F} (p : MinerSessionKey × MinerSessionStats F → Bool)
      → IsCoherent now r
      → IsCoherent now (write r (retain p))
  retain-IsCoherent {r = r} p =
      write-IsCoherent (retain p) (Distinct-retain p r.sessions)
        (All-retain (IsTimed _) p r.sessions)

pub call-IsCoherent :
    (R : Float) (r : Registry R.F) (now : ℕ) (c : Call R.F)
    → IsCoherent now r
    → IsCoherent now (step R r (now, c)).0
unfolding step record_channel_opened record_share_seen record_share_rejected record_share_accepted
    record_block_found record_channel_closed record_downstream_closed snapshots
    forget_closed_sessions_for_user
call-IsCoherent R r now (opened k user hashrate) v =
    write-IsCoherent (insert k _) (Distinct-insert k _ r.sessions)
      (All-insert (IsTimed now) k _ r.sessions (ground arith)) v
call-IsCoherent R r now (seen k) v = update-IsCoherent k _ (λ j s h. ground arith) v
call-IsCoherent R r now (rejected k reason) v = update-IsCoherent k _ (λ j s h. ground arith) v
call-IsCoherent R r now (accepted k shares best blocks) v =
    update-IsCoherent k _ (λ j s h. ground arith) v
call-IsCoherent R r now (block k hash blocks) v = v
call-IsCoherent R r now (channel_ended k) v = update-IsCoherent k _ (λ j s h. ground arith) v
call-IsCoherent R r now (downstream_ended downstream) v =
    map-IsCoherent (close_of downstream now) (λ j s h. ground arith) v
call-IsCoherent R r now listed v = retain-IsCoherent _ v
call-IsCoherent R r now (forgotten user) v = retain-IsCoherent _ v

abbrev pub last_time : {A : Type 0} → ℕ → List (ℕ × A) → ℕ
last_time t [] = t
last_time t ((now, c) ∷ cs) = last_time now cs

-- A coherent registry stays coherent under every sequence of calls whose clock does not go back:
-- one session to a key, under its own key, opened before it was closed and last seen, and nothing
-- later than the last call.
pub run-IsCoherent :
    (R : Float) (r : Registry R.F) (t : ℕ) (cs : List (ℕ × Call R.F))
    → IsTimeline t cs
    → IsCoherent t r
    → IsCoherent (last_time t cs) (run R r cs).0
unfolding run
run-IsCoherent R r t [] line v = v
run-IsCoherent R r t ((now, c) ∷ cs) line v =
    run-IsCoherent R (step R r (now, c)).0 now cs line.1
      (call-IsCoherent R r now c (IsCoherent-later line.0 v))
