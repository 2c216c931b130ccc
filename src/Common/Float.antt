-- ===== src/Common/Float.antt =====
-- Floating-point numbers (`f64`, `f32`) as a parameter: the type, its literals and its operations.
-- Nothing is assumed of them here; a theorem that relies on a law of them names it as a hypothesis.
use Prim.Native.Nat.{ℕ}
use mathlib.Core.Bool.{Bool}
use canary_mining.Common.Tests.{if◌then◌else◌}

pub record Float : Type 1 where
  pub F : Type 0
  -- The literal `n / d`.
  pub literal : ℕ → ℕ → F
  -- `n as f64` and `x as u64`.
  pub of_u64 : ℕ → F
  pub to_u64 : F → ℕ
  pub add : F → F → F
  pub sub : F → F → F
  pub mul : F → F → F
  pub div : F → F → F
  pub fmax : F → F → F
  pub abs : F → F
  pub round : F → F
  pub le : F → F → Bool
  pub lt : F → F → Bool
  pub is_finite : F → Bool

abbrev pub float_zero : (R : Float) → R.F
float_zero R = R.literal 0 1

-- `f64::clamp`.
unfoldable pub clamp : (R : Float) → R.F → R.F → R.F → R.F
clamp R x lo hi = let y = if R.lt x lo then lo else x in if R.lt hi y then hi else y
