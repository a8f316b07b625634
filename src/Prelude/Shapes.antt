-- ===== src/Prelude/Shapes.antt =====
-- `derive(Deserialize)` for a struct, over a document that keeps repeated members. The library reads
-- a struct from an object by names or from an array by positions.
use permissionsync.Prelude.Tests.{if◌then◌else◌}
use permissionsync.Prelude.Bytes.{Text, text_eq}
use permissionsync.Prelude.Lists.{any}
use permissionsync.Prelude.Json.{
  Value, null, bool, number, string, array, object, Items, nil, cons, Fields, end, field,
}
use Prim.Native.Nat.{ℕ, zero, suc}
use mathlib.Core.Bool.{Bool, true, not, ◌&&◌, ◌||◌}
use mathlib.Core.List.{List, [], ◌∷◌}
use mathlib.Core.Option.{Option, none, some}

abbrev pub and_then : {A B : Type 0} → (A → Option B) → Option A → Option B
and_then f none = none
and_then f (some a) = f a

-- `Option::filter`.
abbrev pub keep : {A : Type 0} → (A → Bool) → Option A → Option A
keep p none = none
keep p (some a) = if p a then some a else none

abbrev pub Slots : Type 0 → Type 0
Slots F = List (Option (Value F))

module _ {F : Type 0} where
  -- A member that is found before the rest is searched: a second one is an error.
  abbrev pub found : Value F → Option (Option (Value F)) → Option (Option (Value F))
  found v (some none) = some (some v)
  found v (some (some u)) = none
  found v none = none

  unfoldable pub once : Text → Fields F → Option (Option (Value F))
  once k end = some none
  once k (field j v m) = let rest = once k m in if text_eq j k then found v rest else rest

  unfoldable pub only_known : List Text → Fields F → Bool
  only_known names end = true
  only_known names (field j v m) = any (text_eq j) names && only_known names m

  abbrev pub beside : Option (Value F) → Option (Slots F) → Option (Slots F)
  beside v none = none
  beside v (some slots) = some (v ∷ slots)

  unfoldable pub by_name : List Text → Fields F → Option (Slots F)
  unfolding once
  by_name [] m = some []
  by_name (k ∷ names) m = let rest = by_name names m in and_then (λ v. beside v rest) (once k m)

  unfoldable pub by_position : List Text → Items F → Option (Slots F)
  by_position [] nil = some []
  by_position [] (cons v vs) = none
  by_position (k ∷ names) nil = beside none (by_position names nil)
  by_position (k ∷ names) (cons v vs) = beside (some v) (by_position names vs)

  -- The values of the named fields; the flag is `deny_unknown_fields`.
  unfoldable pub struct_slots : Bool → List Text → Value F → Option (Slots F)
  unfolding by_name by_position only_known
  struct_slots deny names (object m) =
      if not deny || only_known names m then by_name names m else none
  struct_slots deny names (array vs) = by_position names vs
  struct_slots deny names null = none
  struct_slots deny names (bool b) = none
  struct_slots deny names (number n) = none
  struct_slots deny names (string s) = none

  abbrev pub slot : ℕ → Slots F → Option (Value F)
  slot i [] = none
  slot zero (v ∷ slots) = v
  slot (suc i) (v ∷ slots) = slot i slots

  abbrev pub as_bool : Value F → Option Bool
  as_bool (bool b) = some b
  as_bool null = none
  as_bool (number n) = none
  as_bool (string s) = none
  as_bool (array vs) = none
  as_bool (object m) = none

  abbrev pub as_number : Value F → Option F
  as_number (number n) = some n
  as_number null = none
  as_number (bool b) = none
  as_number (string s) = none
  as_number (array vs) = none
  as_number (object m) = none

  abbrev pub as_array : Value F → Option (Items F)
  as_array (array vs) = some vs
  as_array null = none
  as_array (bool b) = none
  as_array (number n) = none
  as_array (string s) = none
  as_array (object m) = none

  unfoldable pub to_list : Items F → List (Value F)
  to_list nil = []
  to_list (cons v vs) = v ∷ to_list vs
