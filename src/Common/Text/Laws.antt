-- ===== src/Common/Text/Laws.antt =====
-- Laws of trimming, splitting and joining.
use Prim.Native.Nat.{ℕ}
use mathlib.Core.Path.{subst, ◌≡◌, refl, ap, ◌∙◌}
use mathlib.Core.Logic.{◌≢◌, inl, inr}
use mathlib.Core.Bool.{false}
use mathlib.Core.List.{List, [], ◌∷◌, ◌++◌}
use mathlib.Core.Option.{none, some}
use native.Mathlib.Omega.{arith}
use canary_mining.Common.Tests.{Bool-cases, nat_beq, nat_beq_iff}
use canary_mining.Common.Text.Basic.{
  Text, is_whitespace, trim, trim_start, trim_end, strip_prefix, split_once, split, join, Lacks,
  cons_head,
}

trim_end_idem : (s : Text) → trim_end (trim_end s) ≡ trim_end s
unfolding trim_end
trim_end_idem [] = refl
trim_end_idem (c ∷ s) = ground (arith, trim_end_idem s)

trim_start-trim_end :
    (c : ℕ) (s : Text) → is_whitespace c ≡ false → trim_start (trim_end (c ∷ s)) ≡ trim_end (c ∷ s)
unfolding trim_end trim_start
trim_start-trim_end c s h = ground arith

trim_start-trim : (s : Text) → trim_start (trim s) ≡ trim s
unfolding trim trim_start
trim_start-trim [] = refl
trim_start-trim (c ∷ s) = elim (Bool-cases (is_whitespace c)) [
  | inl e ↦ rw e (trim_start-trim s)
  | inr e ↦ rw e (trim_start-trim_end c s e)
]

trim_end-trim : (s : Text) → trim_end (trim s) ≡ trim s
unfolding trim
trim_end-trim s = trim_end_idem (trim_start s)

-- A trimmed text stays as it is.
pub trim_idem : (s : Text) → trim (trim s) ≡ trim s
trim_idem s = trim_lem ∙ (ap trim_end (trim_start-trim s) ∙ trim_end-trim s)
  where
    trim_lem : trim (trim s) ≡ trim_end (trim_start (trim s))
    trim_lem = unfold trim in refl

trim_end_cons : (c : ℕ) (s : Text) → s ≢ [] → trim_end s ≡ s → trim_end (c ∷ s) ≡ c ∷ s
unfolding trim_end
trim_end_cons c [] h e = absurd (h refl)
trim_end_cons c (d ∷ s) h e = rw e

trim_end_append : (a s : Text) → s ≢ [] → trim_end s ≡ s → trim_end (a ++ s) ≡ a ++ s
trim_end_append [] s h e = e
trim_end_append (c ∷ []) s h e = trim_end_cons c s h e
trim_end_append (c ∷ d ∷ a) s h e =
    trim_end_cons c (d ∷ (a ++ s)) (λ b. cc b) (trim_end_append (d ∷ a) s h e)

-- Before a trimmed text, a text that begins with no blank keeps the whole trimmed.
pub trim_append :
    (c : ℕ) (a s : Text)
    → is_whitespace c ≡ false
    → s ≢ []
    → trim s ≡ s
    → trim (c ∷ (a ++ s)) ≡ c ∷ (a ++ s)
unfolding trim trim_start
trim_append c a s h ne e = rw h (trim_end_append (c ∷ a) s ne e')
  where
    e' : trim_end s ≡ s
    e' = subst (λ x. trim_end x ≡ x) e (trim_end-trim s)

join-cons_head : (sep : Text) (c : ℕ) (ws : List Text) → join sep (cons_head c ws) ≡ c ∷ join sep ws
unfolding join
join-cons_head sep c [] = refl
join-cons_head sep c (w ∷ []) = refl
join-cons_head sep c (w ∷ v ∷ ws) = refl

join-nil :
    (sep : Text) (w : Text) (ws : List Text) → join sep ([] ∷ w ∷ ws) ≡ sep ++ join sep (w ∷ ws)
unfolding join
join-nil sep w ws = refl

split_cons : (d : ℕ) (s : Text) → (w : Text) × (ws : List Text) × (split d s ≡ w ∷ ws)
unfolding split
split_cons d [] = ([], [], refl)
split_cons d (c ∷ s) =
    let (w, ws, e) = split_cons d s in
    elim (Bool-cases (nat_beq c d)) [
      | inl h ↦ ([], w ∷ ws, rw (h, e))
      | inr h ↦ (c ∷ w, ws, rw (h, e))
    ]

-- A split text is put back together.
pub join-split : (d : ℕ) (s : Text) → join (d ∷ []) (split d s) ≡ s
unfolding split
join-split d [] = join_nil
  where
    join_nil : join (d ∷ []) ([] ∷ []) ≡ []
    join_nil = unfold join in refl
join-split d (c ∷ s) = elim (Bool-cases (nat_beq c d)) [
  | inl h ↦
      let (w, ws, e) = split_cons d s in
      rw (h, e, join-nil, (nat_beq_iff c d).0 h) (ap (◌∷◌ d) (rw e at (join-split d s)))
  | inr h ↦ rw (h, join-cons_head) (ap (◌∷◌ c) (join-split d s))
]

-- Splitting at the first separator.
pub split_once-append : (d : ℕ) (a b : Text) → Lacks d a → split_once d (a ++ (d ∷ b)) ≡ some (a, b)
unfolding split_once
split_once-append d [] b h = ground arith
split_once-append d (c ∷ a) b h = ground (arith, split_once-append d a b h.1)

pub split_once-none : (d : ℕ) (a : Text) → Lacks d a → split_once d a ≡ none
unfolding split_once
split_once-none d [] h = refl
split_once-none d (c ∷ a) h = ground (arith, split_once-none d a h.1)

pub split-append : (d : ℕ) (a b : Text) → Lacks d a → split d (a ++ (d ∷ b)) ≡ a ∷ split d b
unfolding split
split-append d [] b h = ground arith
split-append d (c ∷ a) b h = ground (arith, split-append d a b h.1)

pub split_none : (d : ℕ) (a : Text) → Lacks d a → split d a ≡ a ∷ []
unfolding split
split_none d [] h = refl
split_none d (c ∷ a) h = ground (arith, split_none d a h.1)

pub strip_prefix-append : (p s : Text) → strip_prefix p (p ++ s) ≡ some s
unfolding strip_prefix
strip_prefix-append [] s = refl
strip_prefix-append (c ∷ p) s = ground (arith, strip_prefix-append p s)
