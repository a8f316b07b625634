-- ===== src/Glpi/Mutation.antt =====
-- crates/permissionsync-adapter-glpi/src/mutation.rs: the creation of users and assignments, the
-- deletion of assignments, and the exact shapes of their responses.
pub mod Laws
use permissionsync.Prelude.{
  ℕ, Bool, true, false, not, ◌&&◌, ◌||◌, List, [], ◌∷◌, ◌++◌, Option, none, some, ok_or, ◌==◌,
  if◌then◌else◌, Result, ok, err, Text, text, text_eq,
}
use permissionsync.Prelude.Outcome
use permissionsync.Prelude.Io.{Io, pure, proceed, ◌>>=◌, ◌>>◌, lift, guard}
use permissionsync.Prelude.Json.{
  Value, null, bool, number, string, array, object, Items, nil, cons, Fields, end, field, as_str,
  as_object,
}
use permissionsync.Prelude.Shapes.{
  Slots, and_then, keep, struct_slots, slot, as_number, as_bool, as_array,
}
use permissionsync.Prelude.Decimal.{to_string}
use permissionsync.Glpi.Failure.{GlpiFailure, user_creation_failed, mutation_failed}
use permissionsync.Glpi.Http.{
  Environment, ValidatedConfig, GlpiSession, GlpiAuthenticationSource, ℤ, Request, Method,
  RawResponse, Pairs, join_url, session_headers,
}
use permissionsync.Glpi.Session.{bare_request}

module _ {N : Type 0} (as_u64 : N → Option ℕ) where
  -- A positive `id` next to a `message`.
  unfoldable pub created_id : Slots N → Option ℕ
  created_id slots =
      and_then
        (λ message.
          keep (λ id. not (id == 0)) (and_then as_u64 (and_then as_number (slot 0 slots))))
        (and_then as_str (slot 1 slots))

  unfoldable pub parse_created_id : (Text → Option (Value N)) → Text → Result GlpiFailure ℕ
  unfolding created_id
  parse_created_id document body = ok_or mutation_failed (
      and_then created_id (
        and_then (struct_slots true (text "id" ∷ text "message" ∷ text "upload_result" ∷ []))
          (document body)))

-- What the visitor has read of an entry: `success` and `message`.
pub record Entry : Type 0 where
  pub success : Option Bool
  pub message : Option Text

abbrev pub is_some : {A : Type 0} → Option A → Bool
is_some none = false
is_some (some a) = true

abbrev pub succeeded : Entry → Bool
succeeded e = elim e.success [ none ↦ false | some b ↦ b ]

module _ {N : Type 0} where
  unfoldable pub read_success : Entry → Value N → Option Entry
  read_success e v =
      if is_some e.success
      then none
      else and_then (λ b. some (record e { success = some b })) (as_bool v)

  unfoldable pub read_message : Entry → Value N → Option Entry
  read_message e v =
      if is_some e.message
      then none
      else and_then (λ s. some (record e { message = some s })) (as_str v)

  -- One round of the loop over the members.
  unfoldable pub read_member : Text → Text → Value N → Entry → Option Entry
  unfolding read_success read_message
  read_member expected_id k v e =
      if text_eq k expected_id
      then read_success e v
      else if text_eq k (text "message")
      then read_message e v
      else none

  unfoldable pub visit_map : Text → Fields N → Entry → Option Entry
  unfolding read_member
  visit_map expected_id end e = some e
  visit_map expected_id (field k v m) e =
      and_then (visit_map expected_id m) (read_member expected_id k v e)

  unfoldable pub deletion_entry : Text → Value N → Bool
  unfolding visit_map
  deletion_entry expected_id v =
      elim (and_then (λ m. visit_map expected_id m (record { success = none; message = none }))
        (as_object v)) [ none ↦ false | some e ↦ succeeded e && is_some e.message ]

  -- Exactly one entry.
  unfoldable pub visit_seq : Text → Items N → Bool
  unfolding deletion_entry
  visit_seq expected_id nil = false
  visit_seq expected_id (cons v nil) = deletion_entry expected_id v
  visit_seq expected_id (cons v (cons u vs)) = false

  unfoldable pub parse_deleted_assignment :
      (Text → Option (Value N)) → Text → ℕ → Result GlpiFailure (Unit {0})
  unfolding visit_seq to_string
  parse_deleted_assignment document body assignment_id = elim (and_then as_array (document body)) [
    | none ↦ err mutation_failed
    | some items ↦ Outcome.guard (visit_seq (to_string assignment_id) items) mutation_failed
  ]

module _ {N W : Type 0} (env : Environment N W) (config : ValidatedConfig) where
  abbrev pub wrap : Fields N → Value N
  wrap input = object (field (text "input") (object input) end)

  abbrev pub source_fields : GlpiAuthenticationSource → Fields N
  source_fields GlpiAuthenticationSource.default = end
  source_fields (GlpiAuthenticationSource.explicit authtype auths_id) =
      field (text "authtype") (number (env.of_i64 authtype))
        (field (text "auths_id") (number (env.of_i64 auths_id)) end)

  abbrev pub post_request : Text → Pairs → Text → Request
  post_request url headers body = record (bare_request env config Method.post url headers) {
    body = some body;
  }

  unfoldable pub create_user :
      GlpiSession → Text → GlpiAuthenticationSource → ℕ → Io W GlpiFailure ℕ
  unfolding parse_created_id
  create_user session username authentication_source effective_deadline = do
    url ← join_url env config (text "User")
    headers ← session_headers env config session
    let input : Fields N =
        field (text "name") (string username) (source_fields authentication_source)
    body ← lift (ok_or mutation_failed (env.to_vec (wrap input)))
    response ← env.request (post_request url headers body) effective_deadline
    guard (response.status == 201) user_creation_failed
    lift (
        Outcome.map_err (λ e. user_creation_failed)
          (parse_created_id env.as_u64 env.document response.body))

  unfoldable pub assignment_fields : ℕ → ℕ → ℕ → Bool → Fields N
  assignment_fields users_id profiles_id entities_id is_recursive =
      field (text "users_id") (number (env.of_u64 users_id)) (
        field (text "profiles_id") (number (env.of_u64 profiles_id)) (
          field (text "entities_id") (number (env.of_u64 entities_id))
            (field (text "is_recursive") (bool is_recursive) end)))

  unfoldable pub create_assignment : GlpiSession → ℕ → ℕ → ℕ → Bool → ℕ → Io W GlpiFailure ℕ
  unfolding assignment_fields parse_created_id
  create_assignment session users_id profiles_id entities_id is_recursive effective_deadline = do
    url ← join_url env config (text "Profile_User")
    headers ← session_headers env config session
    body ← lift (
        ok_or mutation_failed
          (env.to_vec (wrap (assignment_fields users_id profiles_id entities_id is_recursive))))
    response ← env.request (post_request url headers body) effective_deadline
    guard (response.status == 201) mutation_failed
    lift (parse_created_id env.as_u64 env.document response.body)

  unfoldable pub delete_assignment : GlpiSession → ℕ → ℕ → Io W GlpiFailure (Unit {0})
  unfolding parse_deleted_assignment
  delete_assignment session assignment_id effective_deadline = do
    url ← join_url env config (text "Profile_User/" ++ to_string assignment_id)
    headers ← session_headers env config session
    response ← env.request (bare_request env config Method.delete url headers) effective_deadline
    guard (response.status == 200) mutation_failed
    lift (parse_deleted_assignment env.document response.body assignment_id)
