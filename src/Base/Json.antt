-- ===== src/Base/Json.antt =====
-- JSON values, as the json package hands them over.
use mathlib.Core.Bool.{Bool}
use pl8_base.Base.Int.{ℤ}
use pl8_base.Base.Text.{Text}

mutual
  pub data Json : Type 0 where
    json_null : Json
    json_bool : Bool → Json
    json_int : ℤ → Json
    json_str : Text → Json
    json_array : Items → Json
    json_object : Fields → Json

  pub data Items : Type 0 where
    no_items : Items
    item : Json → Items → Items

  pub data Fields : Type 0 where
    no_fields : Fields
    field : Text → Json → Fields → Fields
