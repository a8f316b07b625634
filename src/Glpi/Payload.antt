-- ===== src/Glpi/Payload.antt =====
-- crates/permissionsync-adapter-glpi/src/payload.rs: the desired state of version 1, parsed and
-- normalised. The `BTreeMap` is an association list in ascending order of its keys.
pub mod Order
pub mod Laws
use permissionsync.Prelude.{
  ℕ, Bool, true, false, ◌&&◌, ◌||◌, List, [], ◌∷◌, map, Option, none, some, ltb, ◌==◌,
  if◌then◌else◌, Result, ok, err, ok_or, ◌>>=◌, Text, text, text_eq,
}
use permissionsync.Prelude.Json.{Value, as_str}
use permissionsync.Prelude.Shapes.{and_then, struct_slots, slot, as_bool, as_array, to_list}
use permissionsync.Glpi.Failure.{GlpiFailure, invalid_payload}

pub record RawPermission : Type 0 where
  pub entity : Text
  pub profile : Text
  pub recursive : Bool

pub record RawPayload : Type 0 where
  pub permissions : List RawPermission

pub record CanonicalAssignment : Type 0 where
  pub entity : Text
  pub profile : Text
  pub recursive : Bool

-- The order of `String`: by bytes, a prefix first.
unfoldable pub text_lt : Text → Text → Bool
text_lt s [] = false
text_lt [] (b ∷ t) = true
text_lt (a ∷ s) (b ∷ t) = ltb a b || a == b && text_lt s t

abbrev pub Key : Type 0
Key = Text × Text

abbrev pub key_eq : Key → Key → Bool
key_eq (e, p) (f, q) = text_eq e f && text_eq p q

unfoldable pub key_lt : Key → Key → Bool
unfolding text_lt
key_lt (e, p) (f, q) = text_lt e f || text_eq e f && text_lt p q

abbrev pub key : RawPermission → Key
key r = (r.entity, r.profile)

abbrev pub Groups : Type 0
Groups = List (Key × Bool)

-- `entry(key).or_insert(false)`, then the union with the permission's flag.
unfoldable pub insert : RawPermission → Groups → Groups
unfolding key_lt
insert r [] = (key r, r.recursive) ∷ []
insert r ((k, b) ∷ g) =
    if key_eq (key r) k
    then (k, b || r.recursive) ∷ g
    else if key_lt (key r) k
    then (key r, r.recursive) ∷ (k, b) ∷ g
    else (k, b) ∷ insert r g

unfoldable pub insert_all : List RawPermission → Groups → Groups
unfolding insert
insert_all [] g = g
insert_all (r ∷ rs) g = insert_all rs (insert r g)

abbrev pub assignment : Key × Bool → CanonicalAssignment
assignment ((e, p), b) = record { entity = e; profile = p; recursive = b }

abbrev pub is_empty : Text → Bool
is_empty [] = true
is_empty (c ∷ s) = false

unfoldable pub any_empty : List RawPermission → Bool
any_empty [] = false
any_empty (r ∷ rs) = is_empty r.entity || (is_empty r.profile || any_empty rs)

-- The loops of `parse_and_normalize`, after the parser.
unfoldable pub normalize : RawPayload → Result GlpiFailure (List CanonicalAssignment)
unfolding any_empty insert_all
normalize raw =
    if any_empty raw.permissions
    then err invalid_payload
    else ok (map assignment (insert_all raw.permissions []))

module _ {N : Type 0} where
  unfoldable pub raw_permission : Value N → Result GlpiFailure RawPermission
  raw_permission v = do
    slots ←
        ok_or invalid_payload
          (struct_slots true (text "entity" ∷ text "profile" ∷ text "recursive" ∷ []) v)
    entity ← ok_or invalid_payload (and_then as_str (slot 0 slots))
    profile ← ok_or invalid_payload (and_then as_str (slot 1 slots))
    recursive ← ok_or invalid_payload (and_then as_bool (slot 2 slots))
    ok (record { entity = entity; profile = profile; recursive = recursive })

  unfoldable pub raw_permissions : List (Value N) → Result GlpiFailure (List RawPermission)
  unfolding raw_permission
  raw_permissions [] = ok []
  raw_permissions (v ∷ vs) = do
    permission ← raw_permission v
    permissions ← raw_permissions vs
    ok (permission ∷ permissions)

  unfoldable pub raw_payload : Value N → Result GlpiFailure RawPayload
  unfolding raw_permissions to_list
  raw_payload v = do
    slots ← ok_or invalid_payload (struct_slots true (text "permissions" ∷ []) v)
    items ← ok_or invalid_payload (and_then as_array (slot 0 slots))
    permissions ← raw_permissions (to_list items)
    ok (record { permissions = permissions })

  -- Over the parser of `serde_json`, which keeps repeated members.
  unfoldable pub parse_and_normalize :
      (Text → Option (Value N)) → Text → Result GlpiFailure (List CanonicalAssignment)
  unfolding raw_payload normalize
  parse_and_normalize document json = do
    value ← ok_or invalid_payload (document json)
    raw ← raw_payload value
    normalize raw
