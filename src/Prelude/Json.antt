-- ===== src/Prelude/Json.antt =====
-- JSON values as `serde_json` reads them, over an arbitrary type of numbers.
use permissionsync.Prelude.Bytes.{Text, text_eq}
use permissionsync.Prelude.Tests.{if◌then◌else◌}
use mathlib.Core.Bool.{Bool}
use mathlib.Core.Option.{Option, none, some}

-- `serde_json::Value` with its containers.
mutual
  pub data Value (F : Type 0) : Type 0 where
    null : Value F
    bool : Bool → Value F
    number : F → Value F
    string : Text → Value F
    array : Items F → Value F
    object : Fields F → Value F

  pub data Items (F : Type 0) : Type 0 where
    nil : Items F
    cons : Value F → Items F → Items F

  pub data Fields (F : Type 0) : Type 0 where
    end : Fields F
    field : Text → Value F → Fields F → Fields F

module _ {F : Type 0} where
  abbrev pub as_str : Value F → Option Text
  as_str (string s) = some s
  as_str null = none
  as_str (bool b) = none
  as_str (number n) = none
  as_str (array v) = none
  as_str (object m) = none

  abbrev pub as_object : Value F → Option (Fields F)
  as_object (object m) = some m
  as_object null = none
  as_object (bool b) = none
  as_object (number n) = none
  as_object (string s) = none
  as_object (array v) = none

  -- `Map::get`.
  unfoldable pub get : Text → Fields F → Option (Value F)
  get k end = none
  get k (field j v m) = if text_eq j k then some v else get k m
