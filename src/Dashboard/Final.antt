-- ===== src/Dashboard/Final.antt =====
-- What a worker shows of its sessions: `finalize_worker`.
use mathlib.Core.List.{Perm}
use canary_mining.Common.{
  ℕ, ◌≤◌, Bool, true, false, not, ◌≡◌, ◌∙◌, ◌||◌, subst, sym, ◌⊎◌, inl, inr, refl, arith, Option,
  none, some, List, [], ◌∷◌, retain, any, is_empty, All, Bool-cases, length, leb, if◌then◌else◌,
}
use canary_mining.Common.Sort.{sort, IsSorted, sort-perm, sort-IsSorted}
use canary_mining.Common.Text.Basic.{codes}
use canary_mining.Common.Float.{Float}
use canary_mining.Dashboard.Sessions.{MinerSession}
use canary_mining.Dashboard.Workers.{
  MinerWorker, finalize_worker, session_before, displayed, with_value, max_by_key, min_by_key,
  field_of, within_grace, active_miner_grace_seconds,
}
use canary_mining.Dashboard.Picks.{
  AtMost, Below, AtLeast, Above, IsPick, max_by_key-IsPick, min_by_key-IsPick,
}

module _ {F : Type 0} where
  session_before_total :
      (a b : MinerSession F) → session_before a b ≡ false → session_before b a ≡ true
  unfolding session_before
  session_before_total a b h = ground arith

  session_before_trans :
      (a b c : MinerSession F)
      → session_before a b ≡ true
      → session_before b c ≡ true
      → session_before a c ≡ true
  unfolding session_before
  session_before_trans a b c g h = ground arith

  -- The sessions that count: the connected ones, or all when none is.
  abbrev pub Counted : List (MinerSession F) → List (MinerSession F) → Bool → Type 0
  Counted sessions counted true =
      (counted ≡ retain (λ s. s.connected) sessions) × (is_empty counted ≡ false)
  Counted sessions counted false = (counted ≡ sessions) × All (λ s. s.connected ≡ false) sessions

  is_empty-retain :
      (p : MinerSession F → Bool) (ss : List (MinerSession F))
      → is_empty (retain p ss) ≡ not (any p ss)
  unfolding retain any
  is_empty-retain p [] = refl
  is_empty-retain p (s ∷ ss) = ground (arith, is_empty-retain p ss)

  none_holds :
      (p : MinerSession F → Bool) (ss : List (MinerSession F))
      → any p ss ≡ false
      → All (λ s. p s ≡ false) ss
  unfolding any
  none_holds p [] h = tt
  none_holds p (s ∷ ss) h = (ground arith, none_holds p ss (ground arith))

  displayed-Counted :
      (ss : List (MinerSession F)) → Counted ss (displayed ss) (any (λ s. s.connected) ss)
  displayed-Counted ss = elim (Bool-cases (any (λ s. s.connected) ss)) [
    | inl b ↦
        rw (b, is_empty-retain (λ s. s.connected) ss, b)
          (refl, ground (arith, is_empty-retain (λ s. s.connected) ss))
    | inr b ↦
        rw (b, is_empty-retain (λ s. s.connected) ss, b) (refl, none_holds (λ s. s.connected) ss b)
  ]

  -- The times of the session connected the longest, or none.
  abbrev pub ShowsUptime : MinerWorker F → Option (MinerSession F × ℕ) → Type 0
  ShowsUptime w none = (w.opened_at ≡ none) × (w.closed_at ≡ none) × (w.uptime_seconds ≡ none)
  ShowsUptime w (some (s, n)) =
      (w.opened_at ≡ s.opened_at) × (w.closed_at ≡ s.closed_at) × (w.uptime_seconds ≡ some n)

  abbrev pub ShowsSeen : MinerWorker F → Option (MinerSession F × ℕ) → Type 0
  ShowsSeen w none = (w.last_seen_at ≡ none) × (w.last_seen_seconds ≡ none)
  ShowsSeen w (some (s, n)) = (w.last_seen_at ≡ s.last_seen_at) × (w.last_seen_seconds ≡ some n)

  -- Online when connected; recently seen up to the grace period; offline after it.
  abbrev pub ShowsState : MinerWorker F → Type 0
  ShowsState w =
      ((w.connected ≡ true) × (w.active_on_template ≡ true) × (w.connection_state ≡ codes "online"))
      ⊎ (((w.connected ≡ false)
            × ((n : ℕ) × (w.last_seen_seconds ≡ some n) × (n ≤ active_miner_grace_seconds))
            × (w.active_on_template ≡ true)
            × (w.connection_state ≡ codes "recently_seen"))
          ⊎ ((w.connected ≡ false)
              × Above active_miner_grace_seconds w.last_seen_seconds
              × (w.active_on_template ≡ false)
              × (w.connection_state ≡ codes "offline")))

  uptime_of :
      (w : MinerWorker F) (ss : List (MinerSession F)) (o : Option (MinerSession F × ℕ))
      → IsPick (λ s. s.uptime_seconds) AtMost Below ss o
      → w.opened_at ≡ field_of (λ s. s.opened_at) o
      → w.closed_at ≡ field_of (λ s. s.closed_at) o
      → w.uptime_seconds ≡ field_of (λ s. s.uptime_seconds) o
      → ShowsUptime w o
  uptime_of w ss none p a b c = (a, b, c)
  uptime_of w ss (some (s, n)) (before, after, split, value, l, k) a b c = (a, b, c ∙ value)

  seen_of :
      (w : MinerWorker F) (ss : List (MinerSession F)) (o : Option (MinerSession F × ℕ))
      → IsPick (λ s. s.last_seen_seconds) Above AtLeast ss o
      → w.last_seen_at ≡ field_of (λ s. s.last_seen_at) o
      → w.last_seen_seconds ≡ field_of (λ s. s.last_seen_seconds) o
      → ShowsSeen w o
  seen_of w ss none p a b = (a, b)
  seen_of w ss (some (s, n)) (before, after, split, value, l, k) a b = (a, b ∙ value)

  state_of :
      (w : MinerWorker F) (c : Bool) (o : Option ℕ)
      → w.connected ≡ c
      → w.last_seen_seconds ≡ o
      → w.active_on_template ≡ (c || within_grace o)
      → w.connection_state ≡ (
          if c
          then codes "online"
          else if c || within_grace o
          then codes "recently_seen"
          else codes "offline")
      → ShowsState w
  state_of w true o hc ho ha hs = inl (hc, ha, hs)
  state_of w false none hc ho ha hs =
      inr (inr (hc, subst (Above active_miner_grace_seconds) (sym ho) tt, ha, hs))
  state_of w false (some n) hc ho ha hs = elim (Bool-cases (leb n active_miner_grace_seconds)) [
    | inl b ↦ inr (inl (hc, (n, ho, ground arith), ground arith, ground arith))
    | inr b ↦ inr (
        inr (
          hc,
          subst (Above active_miner_grace_seconds) (sym ho) (ground arith),
          ground arith,
          ground arith,
        ))
  ]

  pub record IsFinal (w final : MinerWorker F) : Type 0 where
    pub counted : List (MinerSession F)
    pub longest : Option (MinerSession F × ℕ)
    pub latest : Option (MinerSession F × ℕ)
    pub same : Perm final.sessions w.sessions
    pub ordered : IsSorted session_before final.sessions
    pub count : final.session_count ≡ length final.sessions
    pub counts : Counted final.sessions counted final.connected
    pub is_longest : IsPick (λ s. s.uptime_seconds) AtMost Below counted longest
    pub shows_uptime : ShowsUptime final longest
    pub is_latest : IsPick (λ s. s.last_seen_seconds) Above AtLeast counted latest
    pub shows_seen : ShowsSeen final latest
    pub shows_state : ShowsState final

-- A finalized worker has its sessions in order; it counts the connected ones, or all when none is
-- connected; it shows the times of the last of those with the longest uptime and of the first of
-- those seen last; and its state says whether it is connected or was seen in the grace period.
pub finalize_worker_lem : (R : Float) (w : MinerWorker R.F) → IsFinal w (finalize_worker R w)
unfolding finalize_worker
finalize_worker_lem R w = record {
  counted = displayed (sort session_before w.sessions);
  longest =
      max_by_key (with_value (λ s. s.uptime_seconds) (displayed (sort session_before w.sessions)));
  latest =
      min_by_key
        (with_value (λ s. s.last_seen_seconds) (displayed (sort session_before w.sessions)));
  same = sort-perm session_before w.sessions;
  ordered = sort-IsSorted session_before session_before_total session_before_trans w.sessions;
  count = refl;
  counts = displayed-Counted (sort session_before w.sessions);
  is_longest = max_by_key-IsPick (λ s. s.uptime_seconds) _;
  shows_uptime =
      uptime_of (finalize_worker R w) _ _ (max_by_key-IsPick (λ s. s.uptime_seconds) _) refl refl
        refl;
  is_latest = min_by_key-IsPick (λ s. s.last_seen_seconds) _;
  shows_seen =
      seen_of (finalize_worker R w) _ _ (min_by_key-IsPick (λ s. s.last_seen_seconds) _) refl refl;
  shows_state = state_of (finalize_worker R w) _ _ refl refl refl refl;
}
