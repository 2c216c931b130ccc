-- ===== src/Dashboard/Routing.antt =====
-- The routes of the dashboard are apart: the router of axum, which refuses two routes for one path and
-- method, is a parameter.
use canary_mining.Common.{
  ◌≤◌, Bool, true, false, not, ◌&&◌, ◌||◌, ◌≡◌, refl, sym, subst, ◌∙◌, arith, Option, some, List,
  [], ◌∷◌, ◌++◌, any, retain, length, is_some, Bool-cases, Option-cases, inl, inr,
}
use canary_mining.Common.Text.Basic.{Text, text_beq, text_beq_iff, strip_prefix, starts_with}
use canary_mining.Dashboard.Routes.{Pattern, exact, wildcard, Route, routes}

-- The matching of a pattern: what it captures of a path. A route without a wildcard matches its own
-- path, and `{*path}` captures what follows.
pub record RouterLib : Type 0 where
  pub capture : Pattern → Text → Option Text
  pub capture_exact : (p s c : Text) → capture (exact p) s ≡ some c → s ≡ p
  pub capture_wildcard : (p s c : Text) → capture (wildcard p) s ≡ some c → s ≡ p ++ c

-- Whether a path can match both patterns.
unfoldable overlap : Pattern → Pattern → Bool
unfolding starts_with
overlap (exact p) (exact q) = text_beq p q
overlap (exact p) (wildcard q) = starts_with q p
overlap (wildcard p) (exact q) = starts_with p q
overlap (wildcard p) (wildcard q) = starts_with p q || starts_with q p

unfoldable apart : List Route → Bool
unfolding any overlap
apart [] = true
apart (r ∷ rs) = not (any (λ q. overlap r.pattern q.pattern) rs) && apart rs

starts_with-append : (p c : Text) → starts_with p (p ++ c) ≡ true
unfolding starts_with strip_prefix
starts_with-append [] c = refl
starts_with-append (x ∷ p) c = ground (arith, starts_with-append p c)

-- Of two prefixes of one text, one is a prefix of the other.
prefixes_meet : (p q c d : Text) → p ++ c ≡ q ++ d → (starts_with p q || starts_with q p) ≡ true
unfolding starts_with strip_prefix
prefixes_meet [] q c d h = refl
prefixes_meet (x ∷ p) [] c d h = ground arith
prefixes_meet (x ∷ p) (y ∷ q) c d h = ground (arith, prefixes_meet p q c d)

module _ (M : RouterLib) (s : Text) where
  overlap-both :
      (p q : Pattern) (c d : Text)
      → M.capture p s ≡ some c
      → M.capture q s ≡ some d
      → overlap p q ≡ true
  unfolding overlap
  overlap-both (exact p) (exact q) c d h k =
      (text_beq_iff p q).1 (sym (M.capture_exact p s c h) ∙ M.capture_exact q s d k)
  overlap-both (exact p) (wildcard q) c d h k =
      subst (λ x. starts_with q x ≡ true)
        (sym (M.capture_wildcard q s d k) ∙ M.capture_exact p s c h) (starts_with-append q d)
  overlap-both (wildcard p) (exact q) c d h k =
      subst (λ x. starts_with p x ≡ true)
        (sym (M.capture_wildcard p s c h) ∙ M.capture_exact q s d k) (starts_with-append p c)
  overlap-both (wildcard p) (wildcard q) c d h k =
      prefixes_meet p q c d (sym (M.capture_wildcard p s c h) ∙ M.capture_wildcard q s d k)

  both :
      (p q : Pattern)
      → is_some (M.capture p s) ≡ true
      → is_some (M.capture q s) ≡ true
      → overlap p q ≡ true
  both p q h k = elim (Option-cases (M.capture p s)) [
    | inl e ↦ absurd (ground arith)
    | inr (c, e) ↦ elim (Option-cases (M.capture q s)) [
      | inl f ↦ absurd (ground arith)
      | inr (d, f) ↦ overlap-both p q c d e f
    ]
  ]

  abbrev pub answers : Route → Bool
  answers r = is_some (M.capture r.pattern s)

  none_answers :
      (r : Route) (rs : List Route)
      → answers r ≡ true
      → any (λ q. overlap r.pattern q.pattern) rs ≡ false
      → retain answers rs ≡ []
  unfolding retain any
  none_answers r [] h a = refl
  none_answers r (q ∷ rs) h a = elim (Bool-cases (answers q)) [
    | inl b ↦ absurd (ground (arith, both r.pattern q.pattern h b))
    | inr b ↦ rw b (none_answers r rs h (ground arith))
  ]

  at_most_one : (rs : List Route) → apart rs ≡ true → length (retain answers rs) ≤ 1
  unfolding apart retain
  at_most_one [] a = omega arith
  at_most_one (r ∷ rs) a = elim (Bool-cases (answers r)) [
    | inl b ↦ rw (b, none_answers r rs b (ground arith)) (omega arith)
    | inr b ↦ rw b (at_most_one rs (ground arith))
  ]

-- No path of a request is answered by two routes of the dashboard.
pub answers-routes : (M : RouterLib) (s : Text) → length (retain (answers M s) routes) ≤ 1
unfolding apart routes text_beq
answers-routes M s = at_most_one M s routes refl
