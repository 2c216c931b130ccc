-- ===== src/Common/Json.antt =====
-- JSON values (`serde_json::Value`) as a parameter: the accessors that the program calls.
use Prim.Native.Nat.{ℕ}
use mathlib.Core.List.{List}
use mathlib.Core.Option.{Option}
use canary_mining.Common.Text.Basic.{Text}

pub record Json (F : Type 0) : Type 1 where
  pub Value : Type 0
  -- `Value::as_str`, `as_array`, `as_u64`, `as_f64`: nothing for a value of another kind.
  pub as_str : Value → Option Text
  pub as_array : Value → Option (List Value)
  pub as_u64 : Value → Option ℕ
  pub as_f64 : Value → Option F
  -- `Value::get`: the member of an object.
  pub member : Text → Value → Option Value
  -- `Object::remove`, for an object.
  pub without : Text → Value → Value
