-- ===== src/History/Pipeline.antt =====
-- The registry, the channel and the writer together, from the start of the program.
use canary_mining.Common.{
  ℕ, Bool, true, false, not, ◌≡◌, refl, sym, arith, Option, none, some, List, [], ◌∷◌, ◌++◌,
  if◌then◌else◌, Result, ok, err, any, is_some, All, All-weaken, subst,
}
use mathlib.Core.Option
use canary_mining.Common.Assoc.{get, insert, update}
use canary_mining.Common.Assoc.Laws.{
  map_values, Distinct, Distinct-insert, Distinct-remove, Distinct-retain,
}
use canary_mining.Common.Text.Basic.{Text}
use canary_mining.Common.Float.{Float}
use canary_mining.Config.{Network}
use canary_mining.Address.{AddressLib}
use canary_mining.Identity.{miner_id_from_identity}
use canary_mining.Stats.{
  MinerSessionKey, new_session, key_eq, MinerSessionStats, Registry, Event, channel_closed,
  downstream_closed, share_rejected, close, close_of, is_open_of, reject, record_share_seen,
  record_share_rejected, record_share_accepted, record_block_found, record_channel_closed,
  record_downstream_closed, record_channel_opened,
}
use canary_mining.Stats.Sessions.{snapshots, forget_closed_sessions_for_user, within_retention}
use canary_mining.Stats.Calls.{
  Call, opened, seen, rejected, accepted, block, channel_ended, downstream_ended, listed, forgotten,
  step, run,
}
use canary_mining.Stats.Timing.{IsCoherent, IsTimeline, call-IsCoherent, IsCoherent-later}
use canary_mining.History.Rows.{Table, PersistError, update_accepted, update_rejected}
use canary_mining.History.Writer.{
  History, SessionKey, session_key_eq, key_of, is_of, apply_event, write_events, store,
  update_known, close_session,
}
use canary_mining.History.Invariant.{opened_known}
use canary_mining.History.Tracking.{
  Tracks, tracked, Tracks-opened, Tracks-update, Tracks-closed, Tracks-retain, Tracks-downstream,
  Tracks-unknown, Tracks-not_open, Tracks-absent,
}

-- A registry with a sender, whose lock no panic has poisoned.
abbrev pub live : {F : Type 0} → List (MinerSessionKey × MinerSessionStats F) → Registry F
live stats = record { sessions = stats; poisoned = false; has_sender = true }

-- The pool opens channels only for identities that parse.
abbrev pub IsIdentified : {F : Type 0} → AddressLib → Network → Call F → Type 0
IsIdentified L network (opened k user hashrate) =
    (id : Text) × (miner_id_from_identity L network user ≡ some id)
IsIdentified L network _ = Unit

-- The writer's map: one id to a session, and exactly the open sessions.
abbrev pub Follows :
    {F : Type 0}
    → AddressLib
    → Network
    → List (MinerSessionKey × MinerSessionStats F)
    → List (SessionKey × Text)
    → Type 0
Follows L network stats ids = Tracks L network stats ids × Distinct ids

step-live :
    (R : Float) (stats : List (MinerSessionKey × MinerSessionStats R.F)) (c : ℕ × Call R.F)
    → (step R (live stats) c).0 ≡ live (step R (live stats) c).0.sessions
unfolding step record_channel_opened record_share_seen record_share_rejected record_share_accepted
    record_block_found record_channel_closed record_downstream_closed snapshots
    forget_closed_sessions_for_user
step-live R stats (now, opened k user hashrate) = refl
step-live R stats (now, _) = refl

module _ (L : AddressLib) (R : Float) (network : Network)
    (stats : List (MinerSessionKey × MinerSessionStats R.F)) (h : History R.F) (now : ℕ)
    (v : IsCoherent now (live stats)) (f : Follows L network stats h.sessions) where
  store-sessions : (r : Result PersistError (Table R.F)) → (store h r).0.sessions ≡ h.sessions
  store-sessions (ok db) = refl
  store-sessions (err e) = refl

  update_known-sessions :
      (g : Text → Result PersistError (Table R.F)) (o : Option Text)
      → (update_known h g o).0.sessions ≡ h.sessions
  update_known-sessions g none = refl
  update_known-sessions g (some id) = store-sessions (g id)

  opened-Follows :
      (k : MinerSessionKey) (user : Text) (hashrate : R.F) (id : Text)
      → miner_id_from_identity L network user ≡ some id
      → Follows L network
          (step R (live stats) (now, opened k user hashrate)).0.sessions
          (write_events L R network h
            (step R (live stats) (now, opened k user hashrate)).1).sessions
  unfolding step record_channel_opened write_events
  opened-Follows k user hashrate id e =
      let (identity, i, u) = opened_known L R network h k user id hashrate now e in
      subst
        (λ x. Follows L network (insert k (new_session R k user hashrate now) stats) x.0.sessions)
        (sym u)
        (
          Tracks-opened L network stats h.sessions f.0 k (new_session R k user hashrate now) id refl
              e,
          Distinct-insert (key_of k) id h.sessions f.1,
        )

  -- An event about shares changes no session of the writer.
  shares-Follows :
      (k : MinerSessionKey) (g : Text → Result PersistError (Table R.F))
      (change : MinerSessionStats R.F → MinerSessionStats R.F)
      → ((o : Option (MinerSessionStats R.F))
          → tracked L network (Option.map change o) ≡ tracked L network o)
      → Follows L network
          (update k change stats)
          (update_known h g (get (key_of k) h.sessions)).0.sessions
  shares-Follows k g change keep =
      subst (λ x. Follows L network (update k change stats) x)
        (sym (update_known-sessions g (get (key_of k) h.sessions)))
        (Tracks-update L network stats h.sessions f.0 k change keep, f.1)

  closed-Follows :
      (k : MinerSessionKey) (o : Option Text)
      → get (key_of k) h.sessions ≡ o
      → Follows L network (update k (close now) stats) (close_session R h (key_of k) now o).sessions
  closed-Follows k none e = (Tracks-unknown L network stats h.sessions f.0 k now e, f.1)
  closed-Follows k (some id) e = (
    Tracks-closed L network stats h.sessions f.0 k now,
    Distinct-remove (key_of k) h.sessions f.1,
  )

  rejected-Follows :
      (k : MinerSessionKey) (reason : Text) (count : ℕ) (sent : Bool)
      → Follows L network
          (update k (reject reason now) stats)
          (write_events L R network h
            (if sent then share_rejected k reason count now ∷ [] else [])).sessions
  unfolding write_events apply_event
  rejected-Follows k reason count true =
      shares-Follows k (λ id. update_rejected h.db id count now) _
        (elim [ none ↦ refl | some s ↦ refl ])
  rejected-Follows k reason count false =
      (Tracks-update L network stats h.sessions f.0 k _ (elim [ none ↦ refl | some s ↦ refl ]), f.1)

  ended-Follows :
      (k : MinerSessionKey) (o : Option (MinerSessionStats R.F))
      → get k stats ≡ o
      → Follows L network
          (update k (close now) stats)
          (write_events L R network h
            (if is_some o then channel_closed k now ∷ [] else [])).sessions
  unfolding write_events apply_event
  ended-Follows k none e = (Tracks-absent L network stats h.sessions f.0 k now e, f.1)
  ended-Follows k (some s) e = closed-Follows k (get (key_of k) h.sessions) refl

  downstream-Follows :
      (downstream : ℕ) (sent : Bool)
      → any (λ e. is_open_of downstream e.1) stats ≡ sent
      → Follows L network
          (map_values (close_of downstream now) stats)
          (write_events L R network h
            (if sent then downstream_closed downstream now ∷ [] else [])).sessions
  unfolding write_events apply_event
  downstream-Follows downstream true e = (
    Tracks-downstream L network stats h.sessions f.0 downstream now f.1
        (All-weaken _ _ (λ e k. k.downstream) stats v.timed),
    Distinct-retain (λ e. not (is_of downstream e)) h.sessions f.1,
  )
  downstream-Follows downstream false e =
      (Tracks-not_open L network stats h.sessions f.0 downstream now e, f.1)

  pub call-Follows :
      (c : Call R.F)
      → IsIdentified L network c
      → Follows L network
          (step R (live stats) (now, c)).0.sessions
          (write_events L R network h (step R (live stats) (now, c)).1).sessions
  unfolding step record_channel_opened record_share_seen record_share_rejected record_share_accepted
      record_block_found record_channel_closed record_downstream_closed snapshots
      forget_closed_sessions_for_user write_events apply_event
  call-Follows (opened k user hashrate) i = opened-Follows k user hashrate i.0 i.1
  call-Follows (seen k) i =
      (Tracks-update L network stats h.sessions f.0 k _ (elim [ none ↦ refl | some s ↦ refl ]), f.1)
  call-Follows (rejected k reason) i = rejected-Follows k reason _ _
  call-Follows (accepted k shares best blocks) i =
      shares-Follows k (λ id. update_accepted h.db id shares best blocks now) _
        (elim [ none ↦ refl | some s ↦ refl ])
  call-Follows (block k hash blocks) i = f
  call-Follows (channel_ended k) i = ended-Follows k (get k stats) refl
  call-Follows (downstream_ended downstream) i =
      downstream-Follows downstream (any (λ e. is_open_of downstream e.1) stats) refl
  call-Follows listed i = (
    Tracks-retain L network stats h.sessions f.0 (λ s. within_retention now s.closed_at) v.distinct
        (λ s. ground arith),
    f.1,
  )
  call-Follows (forgotten user) i =
      (Tracks-retain L network stats h.sessions f.0 _ v.distinct (λ s. ground arith), f.1)

write_events-append :
    (L : AddressLib) (R : Float) (network : Network) (h : History R.F) (xs ys : List (Event R.F))
    → write_events L R network h (xs ++ ys)
      ≡ write_events L R network (write_events L R network h xs) ys
unfolding write_events
write_events-append L R network h [] ys = refl
write_events-append L R network h (x ∷ xs) ys =
    write_events-append L R network (apply_event L R network h x).0 xs ys

abbrev pub AllIdentified : {F : Type 0} → AddressLib → Network → List (ℕ × Call F) → Type 0
AllIdentified L network = All (λ c. IsIdentified L network c.1)

-- If the writer's map holds exactly the open sessions of a coherent registry, each with the id of its miner,
-- it does so again after any sequence of calls and all the events that these send; provided the
-- clock does not go back, every opened channel has an identity that parses, there is a sender and
-- the lock is not poisoned.
pub run-Follows :
    (L : AddressLib) (R : Float) (network : Network)
    (stats : List (MinerSessionKey × MinerSessionStats R.F)) (h : History R.F) (t : ℕ)
    (cs : List (ℕ × Call R.F))
    → IsTimeline t cs
    → AllIdentified L network cs
    → IsCoherent t (live stats)
    → Follows L network stats h.sessions
    → Follows L network
        (run R (live stats) cs).0.sessions
        (write_events L R network h (run R (live stats) cs).1).sessions
unfolding run write_events
run-Follows L R network stats h t [] line i v f = f
run-Follows L R network stats h t ((now, c) ∷ cs) line i v f =
    let v' = IsCoherent-later line.0 v in
    let r = (step R (live stats) (now, c)).0 in
    let h' = write_events L R network h (step R (live stats) (now, c)).1 in
    let same = step-live R stats (now, c) in
    let later =
      run-Follows L R network (step R (live stats) (now, c)).0.sessions h' now cs line.1 i.1
        (subst (IsCoherent now) same (call-IsCoherent R (live stats) now c v'))
        (call-Follows L R network stats h now v' f c i.0) in
    subst (λ x. Follows L network (run R r cs).0.sessions x.sessions)
      (sym (write_events-append L R network h (step R (live stats) (now, c)).1 (run R r cs).1))
      (subst
        (λ x.
          Follows L network (run R x cs).0.sessions
            (write_events L R network h' (run R x cs).1).sessions)
        (sym same) later)
