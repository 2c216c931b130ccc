-- ===== src/Dashboard/Picks.antt =====
-- `max_by_key` and `min_by_key`: which session they pick, ties included.
use canary_mining.Common.{
  ℕ, ◌≤◌, ◌<◌, Bool, true, false, ◌≡◌, ◌⊎◌, inl, inr, refl, ap, ◌∙◌, arith, Option, none, some,
  List, [], ◌∷◌, ◌++◌, if◌then◌else◌, leb, ltb, All, subst, sym, Bool-cases, Option-cases,
}
use canary_mining.Dashboard.Sessions.{MinerSession}
use canary_mining.Dashboard.Workers.{fold, with_value, max_by_key, min_by_key}

-- A value, if there is one, is at most, less than, at least, or more than the number.
abbrev pub AtMost : ℕ → Option ℕ → Type 0
AtMost n none = Unit
AtMost n (some m) = m ≤ n

abbrev pub Below : ℕ → Option ℕ → Type 0
Below n none = Unit
Below n (some m) = m < n

abbrev pub AtLeast : ℕ → Option ℕ → Type 0
AtLeast n none = Unit
AtLeast n (some m) = n ≤ m

abbrev pub Above : ℕ → Option ℕ → Type 0
Above n none = Unit
Above n (some m) = n < m

-- One step of the fold: the entry is replaced by one that beats it.
abbrev pick :
    {F : Type 0} → (ℕ → ℕ → Bool) → MinerSession F × ℕ → MinerSession F × ℕ → MinerSession F × ℕ
pick cmp best y = if cmp best.1 y.1 then y else best

module _ (F : Type 0) (cmp : ℕ → ℕ → Bool)
    (trans : (a b c : ℕ) → cmp a b ≡ true → cmp b c ≡ true → cmp a c ≡ true)
    (replace : (a b c : ℕ) → cmp a b ≡ false → cmp a c ≡ true → cmp b c ≡ true) where
  abbrev Entry : Type 0
  Entry = MinerSession F × ℕ

  -- The entry stands in the list, wins against all before it and is not beaten by any after it.
  abbrev IsPicked : List Entry → Entry → Type 0
  IsPicked es e =
      (before : List Entry) × (after : List Entry) × (es ≡ before ++ e ∷ after)
      × All (λ y. cmp y.1 e.1 ≡ true) before
      × All (λ y. cmp e.1 y.1 ≡ false) after

  abbrev Stays : Entry → List Entry → Entry → Type 0
  Stays best es e = (e ≡ best) × All (λ y. cmp best.1 y.1 ≡ false) es

  -- The first entry stays the best one, or another that beats it is picked.
  abbrev Outcome : Entry → List Entry → Entry → Type 0
  Outcome best es e = Stays best es e ⊎ ((cmp best.1 e.1 ≡ true) × IsPicked es e)

  replaced :
      (best y : Entry) (ys : List Entry) (e : Entry)
      → cmp best.1 y.1 ≡ true
      → Outcome y ys e
      → Outcome best (y ∷ ys) e
  replaced best y ys e b (inl (same, h)) =
      subst (Outcome best (y ∷ ys)) (sym same) (inr (b, ([], ys, refl, tt, h)))
  replaced best y ys e b (inr (c, (xs, zs, eq, lost, kept))) =
      inr (trans best.1 y.1 e.1 b c, (y ∷ xs, zs, ap (◌∷◌ y) eq, (c, lost), kept))

  passed :
      (best y : Entry) (ys : List Entry) (e : Entry)
      → cmp best.1 y.1 ≡ false
      → Outcome best ys e
      → Outcome best (y ∷ ys) e
  passed best y ys e b (inl (same, h)) = inl (same, (b, h))
  passed best y ys e b (inr (c, (xs, zs, eq, lost, kept))) =
      inr (c, (y ∷ xs, zs, ap (◌∷◌ y) eq, (replace best.1 y.1 e.1 b c, lost), kept))

  pub pick_cases : (best : Entry) (es : List Entry) → Outcome best es (fold (pick cmp) best es)
  unfolding fold
  pick_cases best [] = inl (refl, tt)
  pick_cases best (y ∷ ys) = elim (Bool-cases (cmp best.1 y.1)) [
    | inl b ↦
        subst (Outcome best (y ∷ ys)) (sym (ap (λ t. fold (pick cmp) (if t then y else best) ys) b))
          (replaced best y ys (fold (pick cmp) y ys) b (pick_cases y ys))
    | inr b ↦
        subst (Outcome best (y ∷ ys)) (sym (ap (λ t. fold (pick cmp) (if t then y else best) ys) b))
          (passed best y ys (fold (pick cmp) best ys) b (pick_cases best ys))
  ]

  pub picked : (best e : Entry) (es : List Entry) → Outcome best es e → IsPicked (best ∷ es) e
  picked best e es (inl (same, h)) = subst (IsPicked (best ∷ es)) (sym same) ([], es, refl, tt, h)
  picked best e es (inr (c, (xs, zs, eq, lost, kept))) =
      (best ∷ xs, zs, ap (◌∷◌ best) eq, (c, lost), kept)

-- The sessions around the one that is picked, without the values.
module _ {F : Type 0} (f : MinerSession F → Option ℕ) where
  abbrev Around :
      List (MinerSession F)
      → List (MinerSession F × ℕ)
      → List (MinerSession F × ℕ)
      → (MinerSession F × ℕ)
      → Type 0
  Around ss xs zs e =
      (before : List (MinerSession F)) × (after : List (MinerSession F)) × (ss
        ≡ before ++ e.0 ∷ after)
      × (f e.0 ≡ some e.1)
      × (with_value f before ≡ xs)
      × (with_value f after ≡ zs)

  with_value-none :
      (s : MinerSession F) (ss : List (MinerSession F))
      → f s ≡ none
      → with_value f (s ∷ ss) ≡ with_value f ss
  unfolding with_value
  with_value-none s ss p = ground arith

  with_value-some :
      (s : MinerSession F) (ss : List (MinerSession F)) (n : ℕ)
      → f s ≡ some n
      → with_value f (s ∷ ss) ≡ (s, n) ∷ with_value f ss
  unfolding with_value
  with_value-some s ss n p = ground arith

  Around-head :
      (s : MinerSession F) (ss : List (MinerSession F)) (n : ℕ) (zs : List (MinerSession F × ℕ))
      (e : (MinerSession F × ℕ))
      → f s ≡ some n
      → (s, n) ∷ with_value f ss ≡ e ∷ zs
      → Around (s ∷ ss) [] zs e
  unfolding with_value
  Around-head s ss n zs e p h =
      let same : (s ≡ e.0) × (n ≡ e.1) × (with_value f ss ≡ zs) =
        (ground arith, ground arith, ground arith) in
      ([], ss, ap (λ x. x ∷ ss) same.0, ground arith, refl, same.2)

  Around-tail :
      (s : MinerSession F) (ss : List (MinerSession F)) (xs ys zs : List (MinerSession F × ℕ))
      (e : (MinerSession F × ℕ))
      → ((before : List (MinerSession F))
          → with_value f before ≡ xs
          → with_value f (s ∷ before) ≡ ys)
      → Around ss xs zs e
      → Around (s ∷ ss) ys zs e
  Around-tail s ss xs ys zs e keep (before, after, eq, value, b, a) =
      (s ∷ before, after, ap (◌∷◌ s) eq, value, keep before b, a)

  pub split_value :
      (ss : List (MinerSession F)) (xs zs : List (MinerSession F × ℕ)) (e : (MinerSession F × ℕ))
      → with_value f ss ≡ xs ++ e ∷ zs
      → Around ss xs zs e
  unfolding with_value
  split_value [] [] zs e h = absurd (ground arith)
  split_value [] (x ∷ xs) zs e h = absurd (ground arith)
  split_value (s ∷ ss) [] zs e h = elim (Option-cases (f s)) [
    | inl p ↦
        Around-tail s ss [] [] zs e (λ b q. with_value-none s b p ∙ q)
          (split_value ss [] zs e (sym (with_value-none s ss p) ∙ h))
    | inr (n, p) ↦ Around-head s ss n zs e p (sym (with_value-some s ss n p) ∙ h)
  ]
  split_value (s ∷ ss) (x ∷ xs) zs e h = elim (Option-cases (f s)) [
    | inl p ↦
        Around-tail s ss (x ∷ xs) (x ∷ xs) zs e (λ b q. with_value-none s b p ∙ q)
          (split_value ss (x ∷ xs) zs e (sym (with_value-none s ss p) ∙ h))
    | inr (n, p) ↦
        let g = sym (with_value-some s ss n p) ∙ h in
        Around-tail s ss xs (x ∷ xs) zs e (λ b q. ground (arith, with_value-some s b n p, q, g))
          (split_value ss xs zs e (ground (arith, g)))
  ]

  -- The session that is picked, with what the values before it and after it are to its own; none
  -- when no session has a value.
  abbrev pub IsPick :
      (ℕ → Option ℕ → Type 0)
      → (ℕ → Option ℕ → Type 0)
      → List (MinerSession F)
      → Option (MinerSession F × ℕ)
      → Type 0
  IsPick Before After ss none = All (λ s. f s ≡ none) ss
  IsPick Before After ss (some e) =
      (before : List (MinerSession F)) × (after : List (MinerSession F)) × (ss
        ≡ before ++ e.0 ∷ after)
      × (f e.0 ≡ some e.1)
      × All (λ s. Before e.1 (f s)) before
      × All (λ s. After e.1 (f s)) after

  All-value :
      (P : Option ℕ → Type 0) (test : ℕ → Bool) (b : Bool)
      → P none
      → ((m : ℕ) → test m ≡ b → P (some m))
      → (ss : List (MinerSession F)) → All (λ y. test y.1 ≡ b) (with_value f ss)
      → All (λ s. P (f s)) ss
  All-value P test b absent present [] h = tt
  All-value P test b absent present (s ∷ ss) h = elim (Option-cases (f s)) [
    | inl p ↦ (
      subst P (sym p) absent,
      All-value P test b absent present ss
          (subst (All (λ y. test y.1 ≡ b)) (with_value-none s ss p) h),
    )
    | inr (n, p) ↦
        let (hn, hs) = subst (All (λ y. test y.1 ≡ b)) (with_value-some s ss n p) h in
        (subst P (sym p) (present n hn), All-value P test b absent present ss hs)
  ]

  no_values : (ss : List (MinerSession F)) → with_value f ss ≡ [] → All (λ s. f s ≡ none) ss
  no_values [] h = tt
  no_values (s ∷ ss) h = elim (Option-cases (f s)) [
    | inl p ↦ (p, no_values ss (sym (with_value-none s ss p) ∙ h))
    | inr (n, p) ↦ absurd (ground (arith, with_value-some s ss n p))
  ]

  module _ (cmp : ℕ → ℕ → Bool)
      (trans : (a b c : ℕ) → cmp a b ≡ true → cmp b c ≡ true → cmp a c ≡ true)
      (replace : (a b c : ℕ) → cmp a b ≡ false → cmp a c ≡ true → cmp b c ≡ true)
      (Before After : ℕ → Option ℕ → Type 0) (absent : (n : ℕ) → Before n none × After n none)
      (beaten : (n m : ℕ) → cmp m n ≡ true → Before n (some m))
      (unbeaten : (n m : ℕ) → cmp n m ≡ false → After n (some m)) where
    fold-IsPick :
        (ss : List (MinerSession F)) (e : MinerSession F × ℕ) (es : List (MinerSession F × ℕ))
        → with_value f ss ≡ e ∷ es
        → IsPick Before After ss (some (fold (pick cmp) e es))
    fold-IsPick ss e es h =
        let last = fold (pick cmp) e es in
        let (xs, zs, eq, lost, kept) =
          picked F cmp trans replace e last es (pick_cases F cmp trans replace e es) in
        let (before, after, split, value, b, a) = split_value ss xs zs last (h ∙ eq) in
        (
          before,
          after,
          split,
          value,
          All-value (Before last.1) (λ m. cmp m last.1) true (absent last.1).0 (beaten last.1)
              before (subst (All (λ y. cmp y.1 last.1 ≡ true)) (sym b) lost),
          All-value (After last.1) (λ m. cmp last.1 m) false (absent last.1).1 (unbeaten last.1)
              after (subst (All (λ y. cmp last.1 y.1 ≡ false)) (sym a) kept),
        )

  -- `max_by_key`: the last session of the greatest value.
  pub max_by_key-IsPick :
      (ss : List (MinerSession F)) → IsPick AtMost Below ss (max_by_key (with_value f ss))
  max_by_key-IsPick ss = from (with_value f ss) refl
    where
      from :
          (es : List (MinerSession F × ℕ))
          → with_value f ss ≡ es
          → IsPick AtMost Below ss (max_by_key es)
      from [] h = unfold max_by_key in no_values ss h
      from (e ∷ es) h =
          unfold max_by_key in
          fold-IsPick leb (λ a b c g k. ground arith) (λ a b c g k. ground arith) AtMost Below
            (λ n. (tt, tt)) (λ n m g. ground arith) (λ n m g. ground arith) ss e es h

  -- `min_by_key`: the first session of the least value.
  pub min_by_key-IsPick :
      (ss : List (MinerSession F)) → IsPick Above AtLeast ss (min_by_key (with_value f ss))
  min_by_key-IsPick ss = from (with_value f ss) refl
    where
      from :
          (es : List (MinerSession F × ℕ))
          → with_value f ss ≡ es
          → IsPick Above AtLeast ss (min_by_key es)
      from [] h = unfold min_by_key in no_values ss h
      from (e ∷ es) h =
          unfold min_by_key in
          fold-IsPick (λ a b. ltb b a) (λ a b c g k. ground arith) (λ a b c g k. ground arith) Above
            AtLeast (λ n. (tt, tt)) (λ n m g. ground arith) (λ n m g. ground arith) ss e es h
