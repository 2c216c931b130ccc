-- ===== src/Stats/Retention.antt =====
-- Which sessions the registry drops: closed ones after a week, and those of a miner to forget.
use canary_mining.Common.{
  ℕ, ◌+◌, ◌≤◌, ◌⊎◌, ◌≢◌, Bool, true, not, ◌||◌, ◌≡◌, ◌↔◌, refl, sym, ◌∙◌, arith, Option, none, some,
  is_none, retain, ◌==◌, inl, inr, Bool-cases,
}
use canary_mining.Common.Assoc.Laws.{Distinct, get-retain, keep_if}
use canary_mining.Common.Text.Basic.{Text, text_eq, text_beq_iff}
use canary_mining.Stats.{
  MinerSessionKey, key_eq, MinerSessionStats, Registry, write, closed_session_retention_secs,
  session,
}
use canary_mining.Stats.Sessions.{within_retention, snapshots, forget_closed_sessions_for_user}

keep_if_iff {ℓ} :
    {V : Type ℓ} (p : V → Bool) (o : Option V) (v : V)
    → (keep_if p o ≡ some v) ↔ ((o ≡ some v) × (p v ≡ true))
keep_if_iff p none v = (λ h. cc, λ h. cc h.0)
keep_if_iff p (some w) v = elim (Bool-cases (p w)) [
  | inl e ↦ (λ h. ground arith, λ h. ground (arith, h.0, h.1))
  | inr e ↦ (λ h. ground arith, λ h. ground (arith, h.0, h.1))
]

within_retention_iff :
    (now : ℕ) (o : Option ℕ)
    → (within_retention now o ≡ true)
      ↔ ((o ≡ none) ⊎ ((c : ℕ) × (o ≡ some c) × (now ≤ c + closed_session_retention_secs)))
within_retention_iff now none = (λ h. inl refl, λ h. refl)
within_retention_iff now (some c) =
    (λ h. inr (c, refl, ground arith), elim [ inl h ↦ cc | inr (d, e, h) ↦ ground arith ])

forget_test_iff :
    (u user : Text) (o : Option ℕ)
    → ((not (u == user) || is_none o) ≡ true) ↔ ((u ≢ user) ⊎ (o ≡ none))
forget_test_iff u user none = (λ h. inr refl, λ h. ground arith)
forget_test_iff u user (some c) = (
  λ h. inl (ground (arith, text_beq_iff u user)),
  elim [ inl h ↦ ground (arith, text_beq_iff u user) | inr h ↦ cc ],
)

session-retain :
    {F : Type 0} (r : Registry F) (k : MinerSessionKey)
    (p : MinerSessionKey × MinerSessionStats F → Bool)
    → Distinct r.sessions
    → session (write r (retain p)) k ≡ keep_if (λ s. p (k, s)) (session r k)
unfolding session write
session-retain r k p d = elim (Bool-cases r.poisoned) [
  | inl e ↦ simp e
  | inr e ↦ simp e (get-retain k p r.sessions d)
]

module _ {F : Type 0} (r : Registry F) (k : MinerSessionKey) (d : Distinct r.sessions)
    (s : MinerSessionStats F) where
  -- Listing the sessions keeps a session exactly if it is open, or was closed no more than a week
  -- before; nothing of it changes, provided no key has two sessions.
  pub session-snapshots :
      (now : ℕ)
      → (session (snapshots r now).0 k ≡ some s) ↔ (
          (session r k ≡ some s)
          × ((s.closed_at ≡ none)
              ⊎ ((c : ℕ) × (s.closed_at ≡ some c) × (now ≤ c + closed_session_retention_secs))))
  unfolding snapshots
  session-snapshots now =
      let e = session-retain r k (λ e. within_retention now e.1.closed_at) d in
      let i = keep_if_iff (λ v. within_retention now v.closed_at) (session r k) s in
      let w = within_retention_iff now s.closed_at in
      (λ h. let (a, b) = i.0 (sym e ∙ h) in (a, w.0 b), λ h. e ∙ i.1 (h.0, w.1 h.1))

  -- Forgetting a user identity drops its closed sessions, and keeps its open ones and all those of
  -- other identities, as they are; provided no key has two sessions.
  pub session-forget :
      (user : Text)
      → (session (forget_closed_sessions_for_user r user) k ≡ some s)
        ↔ ((session r k ≡ some s) × ((s.user_identity ≢ user) ⊎ (s.closed_at ≡ none)))
  unfolding forget_closed_sessions_for_user
  session-forget user =
      let e =
        session-retain r k (λ e. not (e.1.user_identity == user) || is_none e.1.closed_at) d in
      let i =
        keep_if_iff (λ v. not (v.user_identity == user) || is_none v.closed_at) (session r k) s in
      let w = forget_test_iff s.user_identity user s.closed_at in
      (λ h. let (a, b) = i.0 (sym e ∙ h) in (a, w.0 b), λ h. e ∙ i.1 (h.0, w.1 h.1))
