-- ===== src/Common/Text/Inversion.antt =====
-- What a prefix that was stripped and a text that was split tell of the text.
use Prim.Native.Nat.{ℕ}
use mathlib.Core.Path.{◌≡◌, refl, ap}
use mathlib.Core.Logic.{◌⊎◌, inl, inr}
use mathlib.Core.Bool.{false}
use mathlib.Core.List.{[], ◌∷◌, ◌++◌}
use mathlib.Core.Option.{none, some}
use native.Mathlib.Omega.{arith}
use canary_mining.Common.Tests.{Bool-cases, nat_beq, nat_beq_iff}
use canary_mining.Common.Text.Basic.{Text, strip_prefix, starts_with, split_once, split, Lacks}

pub strip_prefix-eq-some : (p s rest : Text) → strip_prefix p s ≡ some rest → s ≡ p ++ rest
unfolding strip_prefix
strip_prefix-eq-some [] s rest h = ground arith
strip_prefix-eq-some (c ∷ p) [] rest h = ground arith
strip_prefix-eq-some (c ∷ p) (d ∷ s) rest h = ground (arith, strip_prefix-eq-some p s rest)

-- A text with a longer prefix starts with the shorter one.
pub strip_prefix-none : (p q s : Text) → starts_with p s ≡ false → strip_prefix (p ++ q) s ≡ none
unfolding starts_with
strip_prefix-none [] q s h = ground arith
strip_prefix-none (c ∷ p) q [] h = refl
strip_prefix-none (c ∷ p) q (d ∷ s) h = ground (arith, strip_prefix-none p q s)

-- A text has the character nowhere, or is split at its first occurrence.
pub split_once_cases :
    (d : ℕ) (s : Text)
    → ((split_once d s ≡ none) × Lacks d s)
      ⊎ ((a : Text) × (b : Text) × (split_once d s ≡ some (a, b)) × (s ≡ a ++ (d ∷ b)) × Lacks d a)
unfolding split_once
split_once_cases d [] = inl (refl, tt)
split_once_cases d (c ∷ s) = elim (Bool-cases (nat_beq c d)) [
  | inl e ↦ inr ([], s, rw e, ap (λ x. x ∷ s) ((nat_beq_iff c d).0 e), tt)
  | inr e ↦ elim (split_once_cases d s) [
    | inl h ↦ inl (rw (e, h.0), ground arith)
    | inr (a, b, h, h', l) ↦ inr (c ∷ a, b, rw (e, h), ap (◌∷◌ c) h', ground arith)
  ]
]

-- The first part, and the parts of what stands after it.
pub split_cases :
    (d : ℕ) (s : Text)
    → ((split d s ≡ s ∷ []) × Lacks d s)
      ⊎ ((a : Text) × (b : Text) × (split d s ≡ a ∷ split d b) × (s ≡ a ++ (d ∷ b)) × Lacks d a)
unfolding split
split_cases d [] = inl (refl, tt)
split_cases d (c ∷ s) = elim (Bool-cases (nat_beq c d)) [
  | inl e ↦ inr ([], s, rw e, ap (λ x. x ∷ s) ((nat_beq_iff c d).0 e), tt)
  | inr e ↦ elim (split_cases d s) [
    | inl h ↦ inl (rw (e, h.0), ground arith)
    | inr (a, b, h, h', l) ↦ inr (c ∷ a, b, rw (e, h), ap (◌∷◌ c) h', ground arith)
  ]
]
