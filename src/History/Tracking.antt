-- ===== src/History/Tracking.antt =====
-- The writer follows the registry: after the events that a call sends, the writer's map holds exactly
-- the registry's open sessions, each with the id of its miner.
use canary_mining.Common.{
  ℕ, Bool, false, not, ◌≡◌, refl, sym, ap, ◌∙◌, arith, Option, none, some, List, [], ◌∷◌,
  if◌then◌else◌, retain, any, is_none, All, nat_eq, nat_beq,
}
use mathlib.Core.Option
use canary_mining.Common.Assoc.{
  get, insert, remove, update, get-insert, get-remove, get-update, update_absent,
}
use canary_mining.Common.Assoc.Laws.{
  Distinct, get-retain, keep_if, get-map_values, map_values, All-get,
}
use canary_mining.Common.Text.Basic.{Text, text_eq, text_beq}
use canary_mining.Config.{Network}
use canary_mining.Address.{AddressLib}
use canary_mining.Identity.{miner_id_from_identity}
use canary_mining.Stats.{
  MinerSessionKey, key_eq, key_beq, as_str, MinerSessionStats, close, close_of, is_open_of,
}
use canary_mining.History.Writer.{
  SessionKey, is_of, session_key_eq, session_key_beq, session_key_beq_iff, key_of,
}

-- The miner of an open session.
abbrev pub tracked :
    {F : Type 0} → AddressLib → Network → Option (MinerSessionStats F) → Option Text
tracked L network none = none
tracked L network (some stats) =
    if is_none stats.closed_at then miner_id_from_identity L network stats.user_identity else none

-- The writer's map against the registry's.
abbrev pub Tracks :
    {F : Type 0}
    → AddressLib
    → Network
    → List (MinerSessionKey × MinerSessionStats F)
    → List (SessionKey × Text)
    → Type 0
Tracks L network stats ids =
    (k : MinerSessionKey) → get (key_of k) ids ≡ tracked L network (get k stats)

-- Different sessions have different keys in the writer too.
pub key_of-beq : (j k : MinerSessionKey) → session_key_beq (key_of j) (key_of k) ≡ key_beq j k
unfolding key_of as_str text_beq
key_of-beq j k = ground arith

not_any : {A : Type 0} (p : A → Bool) (xs : List A) → any p xs ≡ false → All (λ x. p x ≡ false) xs
unfolding any
not_any p [] h = tt
not_any p (x ∷ xs) h = (ground arith, not_any p xs (ground arith))

module _ {F : Type 0} (L : AddressLib) (network : Network)
    (stats : List (MinerSessionKey × MinerSessionStats F)) (ids : List (SessionKey × Text))
    (t : Tracks L network stats ids) where
  pub Tracks-opened :
      (k : MinerSessionKey) (s : MinerSessionStats F) (id : Text)
      → s.closed_at ≡ none
      → miner_id_from_identity L network s.user_identity ≡ some id
      → Tracks L network (insert k s stats) (insert (key_of k) id ids)
  Tracks-opened k s id e i j =
      ground (
        arith,
        get-insert (key_of k) (key_of j) id ids,
        get-insert k j s stats,
        key_of-beq k j,
        t j,
      )

  -- A change that neither closes a session nor renames its miner.
  pub Tracks-update :
      (k : MinerSessionKey) (f : MinerSessionStats F → MinerSessionStats F)
      → ((o : Option (MinerSessionStats F))
          → tracked L network (Option.map f o) ≡ tracked L network o)
      → Tracks L network (update k f stats) ids
  Tracks-update k f keep j = ground (arith, get-update k j f stats, keep (get j stats), t j)

  pub Tracks-closed :
      (k : MinerSessionKey) (now : ℕ)
      → Tracks L network (update k (close now) stats) (remove (key_of k) ids)
  Tracks-closed k now j = ground (
    arith,
    get-remove (key_of k) (key_of j) ids,
    get-update k j (close now) stats,
    key_of-beq k j,
    t j,
  )

  -- A session that the writer does not know is closed by doing nothing.
  pub Tracks-unknown :
      (k : MinerSessionKey) (now : ℕ)
      → get (key_of k) ids ≡ none
      → Tracks L network (update k (close now) stats) ids
  Tracks-unknown k now e j = ground (
    arith,
    get-update k j (close now) stats,
    session_key_beq_iff (key_of k) (key_of j),
    key_of-beq k j,
    t j,
  )

  -- Dropping closed sessions.
  pub Tracks-retain :
      (p : MinerSessionStats F → Bool)
      → Distinct stats
      → ((s : MinerSessionStats F) → p s ≡ false → is_none s.closed_at ≡ false)
      → Tracks L network (retain (λ e. p e.1) stats) ids
  Tracks-retain p d closed j =
      t j
      ∙ (sym (drop (get j stats))
          ∙ ap (tracked L network) (sym (get-retain j (λ e. p e.1) stats d)))
    where
      drop :
          (o : Option (MinerSessionStats F)) → tracked L network (keep_if p o) ≡ tracked L network o
      drop none = refl
      drop (some s) = ground (arith, closed s)

  -- A downstream that closes takes its sessions out of both maps.
  pub Tracks-downstream :
      (downstream now : ℕ)
      → Distinct ids
      → All (λ e. e.1.downstream_id ≡ e.0.downstream_id) stats
      → Tracks L network
          (map_values (close_of downstream now) stats)
          (retain (λ e. not (is_of downstream e)) ids)
  Tracks-downstream downstream now d keyed j =
      get-retain (key_of j) (λ e. not (is_of downstream e)) ids d
      ∙ (ap (keep_if (λ v. not (nat_beq (key_of j).downstream_id downstream))) (t j)
          ∙ (both (get j stats) refl
              ∙ ap (tracked L network) (sym (get-map_values j (close_of downstream now) stats))))
    where
      both :
          (o : Option (MinerSessionStats F))
          → get j stats ≡ o
          → keep_if (λ v. not (nat_beq (key_of j).downstream_id downstream)) (tracked L network o)
            ≡ tracked L network (Option.map (close_of downstream now) o)
      both none e = refl
      both (some s) e = unfold key_of in ground (arith, All-get _ j stats s keyed e)

  -- Where no session of the downstream is open, nothing changes.
  pub Tracks-not_open :
      (downstream now : ℕ)
      → any (λ e. is_open_of downstream e.1) stats ≡ false
      → Tracks L network (map_values (close_of downstream now) stats) ids
  Tracks-not_open downstream now h j =
      t j
      ∙ (same (get j stats) refl
          ∙ ap (tracked L network) (sym (get-map_values j (close_of downstream now) stats)))
    where
      same :
          (o : Option (MinerSessionStats F))
          → get j stats ≡ o
          → tracked L network o ≡ tracked L network (Option.map (close_of downstream now) o)
      same none e = refl
      same (some s) e =
          ground (arith, All-get _ j stats s (not_any (λ e. is_open_of downstream e.1) stats h) e)

  -- A session that is unknown to the registry is closed in neither map.
  pub Tracks-absent :
      (k : MinerSessionKey) (now : ℕ)
      → get k stats ≡ none
      → Tracks L network (update k (close now) stats) ids
  Tracks-absent k now e = rw (update_absent k (close now) stats e) t
