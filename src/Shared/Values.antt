-- ===== src/Shared/Values.antt =====
-- The values of a free-form mapping (`Mapping[str, Any]`): what JSON can hold.
use Prim.Native.Nat.{ℕ}
use Prim.Native.String.{String}
use mathlib.Core.Bool.{Bool, true, false, not}
use mathlib.Core.Option.{Option, none, some}
use agentic_gpu_platform.Shared.Tests.{if◌then◌else◌, ltb}
use agentic_gpu_platform.Shared.Text.{is_empty_text, str_eq}

mutual
  pub data Json : Type 0 where
    null : Json
    bool : Bool → Json
    number : (mantissa : ℕ) (negative : Bool) (scale : ℕ) → Json
    text : String → Json
    array : Items → Json
    object : Fields → Json

  pub data Items : Type 0 where
    nil : Items
    item : Json → Items → Items

  pub data Fields : Type 0 where
    end : Fields
    field : String → Json → Fields → Fields

-- `fields.get(key)`. The fields of a dictionary have different keys.
unfoldable pub get_field : String → Fields → Option Json
get_field key end = none
get_field key (field k v fs) = let rest = get_field key fs in if str_eq k key then some v else rest

-- `bool(value)`
unfoldable pub is_true : Json → Bool
is_true null = false
is_true (bool b) = b
is_true (number mantissa negative scale) = ltb 0 mantissa
is_true (text s) = not (is_empty_text s)
is_true (array nil) = false
is_true (array (item j js)) = true
is_true (object end) = false
is_true (object (field k v fs)) = true
