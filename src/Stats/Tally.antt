-- ===== src/Stats/Tally.antt =====
-- The rejected shares of a session, counted over a run.
use canary_mining.Common.{
  ℕ, ◌+◌, ◌%◌, ◌<◌, Bool, true, false, not, ◌||◌, ◌≡◌, refl, sym, subst, ◌∙◌, arith, Option, none,
  some, List, [], ◌∷◌, is_none, ◌==◌, if◌then◌else◌, inl, inr, Bool-cases, nat_eq,
}
use mathlib.Core.Option
use canary_mining.Common.Assoc.Laws.{keep_if}
use canary_mining.Common.Int64.{u64_mod}
use canary_mining.Common.Text.Basic.{Text, text_eq}
use canary_mining.Common.Float.{Float}
use canary_mining.Stats.{
  MinerSessionKey, key_eq, MinerSessionStats, Registry, session, reject, close, close_of,
  is_open_of,
}
use canary_mining.Stats.Sessions.{within_retention}
use canary_mining.Stats.Calls.{
  Call, opened, seen, rejected, accepted, block, channel_ended, downstream_ended, listed, forgotten,
  run,
}
use canary_mining.Stats.Cells.{effect, history, IsSound, session-run}

module _ {F : Type 0} (k : MinerSessionKey) where
  -- How many calls report a rejected share of the session.
  unfoldable pub rejections : List (ℕ × Call F) → ℕ
  rejections [] = 0
  rejections ((now, rejected j reason) ∷ cs) = (if j == k then 1 else 0) + rejections cs
  rejections ((now, c) ∷ cs) = rejections cs

  -- No call opens the session anew.
  abbrev pub IsKept : List (ℕ × Call F) → Type 0
  IsKept [] = Unit
  IsKept ((now, opened j user hashrate) ∷ cs) = (j == k ≡ false) × IsKept cs
  IsKept ((now, c) ∷ cs) = IsKept cs

module _ (R : Float) (k : MinerSessionKey) (s : MinerSessionStats R.F) where
  -- The session as it was, with `n` more rejected shares, unless it was dropped.
  abbrev pub Grown : ℕ → Option (MinerSessionStats R.F) → Type 0
  Grown n none = Unit
  Grown n (some t) =
      (t.user_identity ≡ s.user_identity)
      × (t.opened_at ≡ s.opened_at)
      × (t.shares_rejected ≡ (s.shares_rejected + n) % u64_mod)

  -- A change that leaves the identity, the opening and the count alone.
  abbrev Steady : (MinerSessionStats R.F → MinerSessionStats R.F) → Type 0
  Steady f =
      (t : MinerSessionStats R.F)
      → ((f t).user_identity ≡ t.user_identity)
        × ((f t).opened_at ≡ t.opened_at)
        × ((f t).shares_rejected ≡ t.shares_rejected)

  map-Grown :
      (n : ℕ) (f : MinerSessionStats R.F → MinerSessionStats R.F)
      (cell : Option (MinerSessionStats R.F))
      → Steady f
      → Grown n cell
      → Grown n (Option.map f cell)
  map-Grown n f none steady g = tt
  map-Grown n f (some t) steady (u, o, c) = let (hu, ho, hc) = steady t in (hu ∙ u, ho ∙ o, hc ∙ c)

  if-Grown :
      (n : ℕ) (b : Bool) (x y : Option (MinerSessionStats R.F))
      → Grown n x
      → Grown n y
      → Grown n (if b then x else y)
  if-Grown n true x y g h = g
  if-Grown n false x y g h = h

  keep_if-Grown :
      (n : ℕ) (p : MinerSessionStats R.F → Bool) (cell : Option (MinerSessionStats R.F))
      → Grown n cell
      → Grown n (keep_if p cell)
  keep_if-Grown n p none g = tt
  keep_if-Grown n p (some t) g = if-Grown n (p t) (some t) none g tt

  reject-Grown :
      (n now : ℕ) (reason : Text) (b : Bool) (cell : Option (MinerSessionStats R.F))
      → Grown n cell
      → Grown (n + (if b then 1 else 0)) (if b then Option.map (reject reason now) cell else cell)
  reject-Grown n now reason true none g = tt
  reject-Grown n now reason false none g = tt
  reject-Grown n now reason true (some t) (u, o, c) = (u, o, omega (arith, c))
  reject-Grown n now reason false (some t) (u, o, c) = (u, o, omega (arith, c))

  history-Grown :
      (n : ℕ) (calls : List (ℕ × Call R.F)) (cell : Option (MinerSessionStats R.F))
      → IsKept k calls
      → Grown n cell
      → Grown (n + rejections k calls) (history R k calls cell)
  unfolding history effect rejections
  history-Grown n [] cell kept g = subst (λ m. Grown m cell) (omega arith) g
  history-Grown n ((now, opened j user hashrate) ∷ cs) cell (other, kept) g =
      rw other (history-Grown n cs cell kept g)
  history-Grown n ((now, seen j) ∷ cs) cell kept g =
      history-Grown n cs _ kept
        (if-Grown n (j == k) _ cell (map-Grown n _ cell (λ t. (refl, refl, refl)) g) g)
  history-Grown n ((now, rejected j reason) ∷ cs) cell kept g =
      subst
        (λ m.
          Grown m (history R k cs (if j == k then Option.map (reject reason now) cell else cell)))
        (omega arith)
        (history-Grown (n + (if j == k then 1 else 0)) cs _ kept
          (reject-Grown n now reason (j == k) cell g))
  history-Grown n ((now, accepted j shares best blocks) ∷ cs) cell kept g =
      history-Grown n cs _ kept
        (if-Grown n (j == k) _ cell (map-Grown n _ cell (λ t. (refl, refl, refl)) g) g)
  history-Grown n ((now, block j hash blocks) ∷ cs) cell kept g = history-Grown n cs cell kept g
  history-Grown n ((now, channel_ended j) ∷ cs) cell kept g =
      history-Grown n cs _ kept
        (if-Grown n (j == k) _ cell (map-Grown n (close now) cell (λ t. (refl, refl, refl)) g) g)
  history-Grown n ((now, downstream_ended downstream) ∷ cs) cell kept g =
      history-Grown n cs _ kept (
        map-Grown n (close_of downstream now) cell
          (λ t. elim (Bool-cases (is_open_of downstream t)) [
            | inl b ↦ rw b (refl, refl, refl)
            | inr b ↦ rw b (refl, refl, refl)
          ])
          g)
  history-Grown n ((now, listed) ∷ cs) cell kept g =
      history-Grown n cs _ kept (keep_if-Grown n (λ t. within_retention now t.closed_at) cell g)
  history-Grown n ((now, forgotten user) ∷ cs) cell kept g =
      history-Grown n cs _ kept
        (keep_if-Grown n (λ t. not (t.user_identity == user) || is_none t.closed_at) cell g)

  -- Over any calls that do not open the session anew, and as long as it is not dropped, its identity
  -- and opening time stay, and its count of rejected shares grows by one for each rejection reported
  -- under its key, modulo 2 ^ 64; provided the lock is not poisoned and no key has two sessions.
  pub rejections-run :
      (r : Registry R.F) (calls : List (ℕ × Call R.F))
      → IsSound R r
      → IsKept k calls
      → session r k ≡ some s
      → s.shares_rejected < u64_mod
      → Grown (rejections k calls) (session (run R r calls).0 k)
  rejections-run r calls sound kept here small =
      subst (Grown (rejections k calls)) (sym (session-run R r k calls sound)) (
        rw here (
          subst (λ m. Grown m (history R k calls (some s))) (omega arith)
            (history-Grown 0 calls (some s) kept (refl, refl, omega (arith, small)))))
