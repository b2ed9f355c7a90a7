-- ===== src/Base/Json.antt =====
-- `serde_json::Value` and what the program calls of it.
use clawstainer.Base.Int.{ℤ}
use mathlib.Core.Bool.{Bool}
use mathlib.Core.List.{List}
use mathlib.Core.Option.{Option}
use Prim.Native.Nat.{ℕ}
use Prim.Native.String.{String}

pub record Json : Type 1 where
  pub Value : Type 0
  pub from_str : String → Option Value
  pub list_from_str : String → Option (List Value)
  pub field : Value → String → Option Value  -- `get`
  pub as_str : Value → Option String
  pub as_u64 : Value → Option ℕ
  pub as_i64 : Value → Option ℤ
  pub as_bool : Value → Option Bool
