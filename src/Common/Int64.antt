-- ===== src/Common/Int64.antt =====
-- Signed integers, and the casts of Rust between `u64` and `i64`.
use Prim.Native.Nat.{ℕ, suc, ◌+◌, ◌-◌, ◌^◌, ◌<◌}
use mathlib.Core.Path.{◌≡◌}
use mathlib.Core.Bool.{Bool}
use mathlib.Core.Option.{Option, none, some}
use native.Mathlib.Omega.{arith}
use canary_mining.Common.Tests.{ltb, leb, if◌then◌else◌}

-- `negsuc n` is -(n + 1).
pub data ℤ : Type 0 where
  pos : ℕ → ℤ
  negsuc : ℕ → ℤ

abbrev pub u64_mod : ℕ
u64_mod = 2 ^ 64

abbrev pub i64_bound : ℕ
i64_bound = 2 ^ 63

abbrev pub u64_max : ℕ
u64_max = 2 ^ 64 - 1

-- `n as i64` of a `u64`.
unfoldable pub as_i64 : ℕ → ℤ
as_i64 n = if ltb n i64_bound then pos n else negsuc (u64_mod - n - 1)

-- `z as u64` of an `i64`.
unfoldable pub as_u64 : ℤ → ℕ
as_u64 (pos n) = n
as_u64 (negsuc n) = u64_mod - n - 1

-- `i64::try_from` of a `u64`.
unfoldable pub try_i64 : ℕ → Option ℤ
try_i64 n = if ltb n i64_bound then some (pos n) else none

abbrev pub pos_part : ℤ → ℕ
pos_part (pos n) = n
pos_part (negsuc n) = 0

abbrev pub neg_part : ℤ → ℕ
neg_part (pos n) = 0
neg_part (negsuc n) = suc n

-- `max(a - b, 0)` of integers.
unfoldable pub sub_or_zero : ℤ → ℤ → ℤ
sub_or_zero a b = pos ((pos_part a + neg_part b) - (pos_part b + neg_part a))

-- Order of integers.
unfoldable pub leb_ℤ : ℤ → ℤ → Bool
leb_ℤ a b = leb (pos_part a + neg_part b) (pos_part b + neg_part a)

-- A `u64` survives the way through a signed column.
pub as_u64-as_i64 : (n : ℕ) → n < u64_mod → as_u64 (as_i64 n) ≡ n
unfolding as_u64 as_i64
as_u64-as_i64 n h = ground arith
