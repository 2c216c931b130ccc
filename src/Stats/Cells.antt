-- ===== src/Stats/Cells.antt =====
-- The registry as cells: what the calls do to the session of one key, whatever they do to the others.
use canary_mining.Common.{
  ℕ, Bool, false, not, ◌||◌, ◌≡◌, refl, ◌∙◌, arith, Option, some, List, [], ◌∷◌, map, is_none,
  retain, ◌==◌, if◌then◌else◌, nat_eq,
}
use mathlib.Core.Option
use canary_mining.Common.Assoc.{get, insert, update, get-insert, get-update}
use canary_mining.Common.Assoc.Laws.{
  Distinct, Distinct-insert, Distinct-update, Distinct-map_values, Distinct-retain, get-retain,
  get-map_values, keep_if,
}
use canary_mining.Common.Text.Basic.{text_eq}
use canary_mining.Common.Float.{Float}
use canary_mining.Stats.{
  MinerSessionKey, key_eq, MinerSessionStats, Registry, write, session, new_session, reject, close,
  close_of, record_share_seen, record_share_rejected, record_share_accepted, record_block_found,
  record_channel_closed, record_downstream_closed, record_channel_opened,
}
use canary_mining.Stats.Sessions.{within_retention, snapshots, forget_closed_sessions_for_user}
use canary_mining.Stats.Calls.{
  Call, opened, seen, rejected, accepted, block, channel_ended, downstream_ended, listed, forgotten,
  step, run,
}

module _ (R : Float) where
  abbrev touch : ℕ → MinerSessionStats R.F → MinerSessionStats R.F
  touch now stats = record stats { last_seen_at = now }

  abbrev with_accepted : ℕ → R.F → ℕ → ℕ → MinerSessionStats R.F → MinerSessionStats R.F
  with_accepted shares best blocks now stats = record stats {
    last_seen_at = now;
    shares_accepted = shares;
    best_diff = best;
    blocks_found = blocks;
  }

  -- The session of one key under one call.
  unfoldable pub effect :
      MinerSessionKey
      → ℕ × Call R.F
      → Option (MinerSessionStats R.F)
      → Option (MinerSessionStats R.F)
  effect k (now, opened j user hashrate) cell =
      if j == k then some (new_session R j user hashrate now) else cell
  effect k (now, seen j) cell = if j == k then Option.map (touch now) cell else cell
  effect k (now, rejected j reason) cell =
      if j == k then Option.map (reject reason now) cell else cell
  effect k (now, accepted j shares best blocks) cell =
      if j == k then Option.map (with_accepted shares best blocks now) cell else cell
  effect k (now, block j hash blocks) cell = cell
  effect k (now, channel_ended j) cell = if j == k then Option.map (close now) cell else cell
  effect k (now, downstream_ended downstream) cell = Option.map (close_of downstream now) cell
  effect k (now, listed) cell = keep_if (λ s. within_retention now s.closed_at) cell
  effect k (now, forgotten user) cell =
      keep_if (λ s. not (s.user_identity == user) || is_none s.closed_at) cell

  unfoldable pub history :
      MinerSessionKey
      → List (ℕ × Call R.F)
      → Option (MinerSessionStats R.F)
      → Option (MinerSessionStats R.F)
  history k [] cell = cell
  history k (c ∷ cs) cell = history k cs (effect k c cell)

  -- The lock is not poisoned, and no key has two sessions.
  abbrev pub IsSound : Registry R.F → Type 0
  IsSound r = (r.poisoned ≡ false) × Distinct r.sessions

  -- The registry stays sound, and has this session under the key.
  abbrev Becomes : Registry R.F → MinerSessionKey → Option (MinerSessionStats R.F) → Type 0
  Becomes r k cell = IsSound r × (session r k ≡ cell)

  session_live :
      (r : Registry R.F) (k : MinerSessionKey) → r.poisoned ≡ false → session r k ≡ get k r.sessions
  unfolding session
  session_live r k live = ground arith

  module _ (r : Registry R.F) (k : MinerSessionKey) (sound : IsSound r) where
    write-Becomes :
        (cell : Option (MinerSessionStats R.F))
        (f : List (MinerSessionKey × MinerSessionStats R.F)
          → List (MinerSessionKey × MinerSessionStats R.F))
        → Distinct (f r.sessions)
        → get k (f r.sessions) ≡ cell
        → Becomes (write r f) k cell
    unfolding write session
    write-Becomes cell f d h = simp (sound.0) ((refl, d), h)

    update-Becomes :
        (j : MinerSessionKey) (f : MinerSessionStats R.F → MinerSessionStats R.F)
        → Becomes
            (write r (update j f))
            k
            (if j == k then Option.map f (session r k) else session r k)
    update-Becomes j f =
        write-Becomes _ (update j f) (Distinct-update j f r.sessions sound.1)
          (rw (session_live r k sound.0) (get-update j k f r.sessions))

    retain-Becomes :
        (p : MinerSessionStats R.F → Bool)
        → Becomes (write r (retain (λ e. p e.1))) k (keep_if p (session r k))
    retain-Becomes p =
        write-Becomes _ (retain (λ e. p e.1)) (Distinct-retain (λ e. p e.1) r.sessions sound.1)
          (rw (session_live r k sound.0) (get-retain k (λ e. p e.1) r.sessions sound.1))

    step-Becomes : (c : ℕ × Call R.F) → Becomes (step R r c).0 k (effect k c (session r k))
    unfolding step effect record_channel_opened record_share_seen record_share_rejected
        record_share_accepted record_block_found record_channel_closed record_downstream_closed
        snapshots forget_closed_sessions_for_user
    step-Becomes (now, opened j user hashrate) =
        write-Becomes _ (insert j (new_session R j user hashrate now))
          (Distinct-insert j _ r.sessions sound.1)
          (rw (session_live r k sound.0) (get-insert j k _ r.sessions))
    step-Becomes (now, seen j) = update-Becomes j (touch now)
    step-Becomes (now, rejected j reason) = update-Becomes j (reject reason now)
    step-Becomes (now, accepted j shares best blocks) =
        update-Becomes j (with_accepted shares best blocks now)
    step-Becomes (now, block j hash blocks) = (sound, refl)
    step-Becomes (now, channel_ended j) = update-Becomes j (close now)
    step-Becomes (now, downstream_ended downstream) =
        write-Becomes _ (map (λ e. (e.0, close_of downstream now e.1)))
          (Distinct-map_values (close_of downstream now) r.sessions sound.1)
          (rw (session_live r k sound.0) (get-map_values k (close_of downstream now) r.sessions))
    step-Becomes (now, listed) = retain-Becomes (λ s. within_retention now s.closed_at)
    step-Becomes (now, forgotten user) =
        retain-Becomes (λ s. not (s.user_identity == user) || is_none s.closed_at)

  -- Whatever calls are made, the session of a key is what the calls make of it on its own: it depends
  -- on the session there before, and on no other session; provided the lock is not poisoned and no
  -- key has two sessions.
  pub session-run :
      (r : Registry R.F) (k : MinerSessionKey) (calls : List (ℕ × Call R.F))
      → IsSound r
      → session (run R r calls).0 k ≡ history k calls (session r k)
  unfolding run history
  session-run r k [] sound = refl
  session-run r k (c ∷ cs) sound =
      let (sound', cell) = step-Becomes r k sound c in
      session-run (step R r c).0 k cs sound' ∙ rw cell refl
