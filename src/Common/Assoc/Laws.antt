-- ===== src/Common/Assoc/Laws.antt =====
-- Maps with one entry to a key, predicates on all entries, and lookups after a change of many entries.
use mathlib.Core.Path.{◌≡◌, refl, subst}
use mathlib.Core.Bool.{Bool}
use mathlib.Core.List.{List, [], ◌∷◌, map}
use mathlib.Core.Logic.{inl, inr}
use mathlib.Core.Option.{Option, none, some}
use mathlib.Core.Option
use native.Mathlib.Omega.{arith}
use canary_mining.Common.Tests.{Eq, ◌==◌, if◌then◌else◌, Bool-cases}
use canary_mining.Common.Lists.{All, retain}
use canary_mining.Common.Assoc.{get, insert, remove, update, get-insert, get-update, get-remove}

-- `values_mut`: every value is changed in place.
abbrev pub map_values {ℓ κ} : {K : Type ℓ} {V : Type κ} → (V → V) → List (K × V) → List (K × V)
map_values f = map (λ e. (e.0, f e.1))

-- `Option::filter`.
abbrev pub keep_if {ℓ} : {V : Type ℓ} → (V → Bool) → Option V → Option V
keep_if p none = none
keep_if p (some v) = if p v then some v else none

module _ {ℓ κ} {K : Type ℓ} {V : Type κ} ⦃e : Eq K⦄ where
  -- No key has two entries.
  abbrev pub Distinct : List (K × V) → Type κ
  Distinct [] = Unit
  Distinct ((k, v) ∷ m) = (get k m ≡ none) × Distinct m

  pub Distinct-insert : (k : K) (v : V) (m : List (K × V)) → Distinct m → Distinct (insert k v m)
  unfolding insert
  Distinct-insert k v [] d = (unfold get in refl, tt)
  Distinct-insert k v ((j, w) ∷ m) d = elim (Bool-cases (j == k)) [
    | inl h ↦ rw h (subst (λ x. get x m ≡ none) ((e.beq_iff j k).0 h) d.0, d.1)
    | inr h ↦ rw h (
      ground (arith, e.beq_iff j k, e.beq_iff k j, get-insert k j v m),
      Distinct-insert k v m d.1,
    )
  ]

  pub Distinct-update :
      (k : K) (f : V → V) (m : List (K × V)) → Distinct m → Distinct (update k f m)
  unfolding update
  Distinct-update k f [] d = tt
  Distinct-update k f ((j, w) ∷ m) d = elim (Bool-cases (j == k)) [
    | inl h ↦ rw h d
    | inr h ↦ rw h (
      ground (arith, e.beq_iff j k, e.beq_iff k j, get-update k j f m),
      Distinct-update k f m d.1,
    )
  ]

  pub get-map_values :
      (k : K) (f : V → V) (m : List (K × V)) → get k (map_values f m) ≡ Option.map f (get k m)
  unfolding get
  get-map_values k f [] = refl
  get-map_values k f ((j, w) ∷ m) = ground (arith, get-map_values k f m)

  pub Distinct-map_values : (f : V → V) (m : List (K × V)) → Distinct m → Distinct (map_values f m)
  Distinct-map_values f [] d = tt
  Distinct-map_values f ((j, w) ∷ m) d =
      (rw (get-map_values j f m, d.0), Distinct-map_values f m d.1)

  get-retain-none :
      (k : K) (p : K × V → Bool) (m : List (K × V)) → get k m ≡ none → get k (retain p m) ≡ none
  unfolding get retain
  get-retain-none k p [] h = refl
  get-retain-none k p ((j, w) ∷ m) h = ground (arith, get-retain-none k p m)

  pub Distinct-retain : (p : K × V → Bool) (m : List (K × V)) → Distinct m → Distinct (retain p m)
  unfolding retain
  Distinct-retain p [] d = tt
  Distinct-retain p ((j, w) ∷ m) d = elim (Bool-cases (p (j, w))) [
    | inl h ↦ rw h (get-retain-none j p m d.0, Distinct-retain p m d.1)
    | inr h ↦ rw h (Distinct-retain p m d.1)
  ]

  pub Distinct-remove : (k : K) (m : List (K × V)) → Distinct m → Distinct (remove k m)
  unfolding remove
  Distinct-remove k [] d = tt
  Distinct-remove k ((j, w) ∷ m) d = elim (Bool-cases (j == k)) [
    | inl h ↦ rw h (Distinct-remove k m d.1)
    | inr h ↦ rw h (ground (arith, get-remove k j m), Distinct-remove k m d.1)
  ]

  -- A lookup after `retain`, by a test of the key and the value.
  pub get-retain :
      (k : K) (p : K × V → Bool) (m : List (K × V))
      → Distinct m
      → get k (retain p m) ≡ keep_if (λ v. p (k, v)) (get k m)
  unfolding get retain
  get-retain k p [] d = refl
  get-retain k p ((j, w) ∷ m) d = elim (Bool-cases (j == k)) [
    | inl h ↦ ground (arith, e.beq_iff j k, get-retain-none k p m)
    | inr h ↦ ground (arith, get-retain k p m d.1)
  ]

  module _ {μ} (P : K × V → Type μ) where
    pub All-insert : (k : K) (v : V) (m : List (K × V)) → P (k, v) → All P m → All P (insert k v m)
    unfolding insert
    All-insert k v [] p h = (p, tt)
    All-insert k v ((j, w) ∷ m) p h = elim (Bool-cases (j == k)) [
      | inl b ↦ rw b (p, h.1)
      | inr b ↦ rw b (h.0, All-insert k v m p h.1)
    ]

    pub All-update :
        (k : K) (f : V → V)
        → ((j : K) (v : V) → P (j, v) → P (j, f v))
        → (m : List (K × V)) → All P m
        → All P (update k f m)
    unfolding update
    All-update k f keep [] h = tt
    All-update k f keep ((j, w) ∷ m) h = elim (Bool-cases (j == k)) [
      | inl b ↦ rw b (keep j w h.0, h.1)
      | inr b ↦ rw b (h.0, All-update k f keep m h.1)
    ]

    pub All-map_values :
        (f : V → V)
        → ((j : K) (v : V) → P (j, v) → P (j, f v))
        → (m : List (K × V)) → All P m
        → All P (map_values f m)
    All-map_values f keep [] h = tt
    All-map_values f keep ((j, w) ∷ m) h = (keep j w h.0, All-map_values f keep m h.1)

    pub All-remove : (k : K) (m : List (K × V)) → All P m → All P (remove k m)
    unfolding remove
    All-remove k [] h = tt
    All-remove k ((j, w) ∷ m) h = elim (Bool-cases (j == k)) [
      | inl b ↦ rw b (All-remove k m h.1)
      | inr b ↦ rw b (h.0, All-remove k m h.1)
    ]

    pub All-get : (k : K) (m : List (K × V)) (v : V) → All P m → get k m ≡ some v → P (k, v)
    unfolding get
    All-get k [] v h g = cc
    All-get k ((j, w) ∷ m) v h g = elim (Bool-cases (j == k)) [
      | inl b ↦
          let same : ◌≡◌ {A = K × V} (j, w) (k, v) = ground (arith, e.beq_iff j k) in
          subst P same h.0
      | inr b ↦ All-get k m v h.1 (rw b at g)
    ]
