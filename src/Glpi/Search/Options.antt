-- ===== src/Glpi/Search/Options.antt =====
-- crates/permissionsync-adapter-glpi/src/search.rs: the ids of the required search options. The
-- hash map is an association list.
use permissionsync.Prelude.{
  ℕ, Bool, true, false, List, [], ◌∷◌, ◌++◌, Option, none, some, ok_or, ◌==◌, if◌then◌else◌, Result,
  ok, err, find, Text, text, text_eq,
}
use permissionsync.Prelude.Io.{Io, pure, ◌>>=◌, ◌>>◌, lift, guard}
use permissionsync.Prelude.Json.{Value, Fields, end, field, as_str, as_object, get}
use permissionsync.Prelude.Shapes.{and_then}
use permissionsync.Prelude.Decimal.{parse_u64}
use permissionsync.Glpi.Failure.{GlpiFailure, search_metadata_unavailable}
use permissionsync.Glpi.Http.{
  Environment, ValidatedConfig, GlpiSession, Method, join_url, session_headers, parse_value,
}
use permissionsync.Glpi.Session.{bare_request}

abbrev pub SearchOptions : Type 0
SearchOptions = List (Text × ℕ)

unfoldable pub lookup : Text → SearchOptions → Option ℕ
lookup uid [] = none
lookup uid ((k, id) ∷ ids) = if text_eq k uid then some id else lookup uid ids

unfoldable pub require : SearchOptions → Text → Result GlpiFailure ℕ
unfolding lookup
require ids uid = ok_or search_metadata_unavailable (lookup uid ids)

abbrev pub has : Text → SearchOptions → Bool
unfolding lookup
has uid ids = elim (lookup uid ids) [ none ↦ false | some id ↦ true ]

unfoldable pub has_all : List Text → SearchOptions → Bool
has_all [] ids = true
has_all (uid ∷ uids) ids = if has uid ids then has_all uids ids else false

-- A member that names a required option; any other is passed over.
unfoldable pub recognised : {N : Type 0} → List Text → Text → Value N → Option (Text × ℕ)
recognised required_uids key v =
    and_then (λ uid. and_then (λ id. some (uid, id)) (parse_u64 key))
      (and_then (λ uid. find (text_eq uid) required_uids)
        (and_then as_str (and_then (get (text "uid")) (as_object v))))

-- A second id of the same option is ambiguous.
unfoldable pub claim : Text × ℕ → SearchOptions → Result GlpiFailure SearchOptions
claim (uid, id) found =
    if has uid found then err search_metadata_unavailable else ok ((uid, id) ∷ found)

-- What one member adds to the options that are found.
unfoldable pub noted : Option (Text × ℕ) → SearchOptions → Result GlpiFailure SearchOptions
unfolding claim
noted none found = ok found
noted (some option) found = claim option found

unfoldable pub collect :
    {N : Type 0} → List Text → Fields N → SearchOptions → Result GlpiFailure SearchOptions
unfolding recognised noted
collect required_uids end found = ok found
collect required_uids (field k v m) found = elim (noted (recognised required_uids k v) found) [
  | err e ↦ err e
  | ok more ↦ collect required_uids m more
]

module _ {N W : Type 0} (env : Environment N W) (config : ValidatedConfig) where
  unfoldable pub resolve_search_options :
      GlpiSession → Text → List Text → ℕ → Io W GlpiFailure SearchOptions
  unfolding collect has_all
  resolve_search_options session itemtype required_uids effective_deadline = do
    url ← join_url env config (text "listSearchOptions/" ++ itemtype)
    headers ← session_headers env config session
    response ← env.request (bare_request env config Method.get url headers) effective_deadline
    guard (response.status == 200) search_metadata_unavailable
    parsed ← lift (ok_or search_metadata_unavailable (parse_value env config response.body))
    members ← lift (ok_or search_metadata_unavailable (as_object parsed))
    found ← lift (collect required_uids members [])
    guard (has_all required_uids found) search_metadata_unavailable
    pure found

abbrev pub required_entity_uids : List Text
required_entity_uids = text "Entity.id" ∷ text "Entity.completename" ∷ []

abbrev pub required_profile_uids : List Text
required_profile_uids = text "Profile.id" ∷ text "Profile.name" ∷ []

abbrev pub required_user_uids : List Text
required_user_uids = text "User.id" ∷ text "User.name" ∷ []

abbrev pub required_profile_user_uids : List Text
required_profile_user_uids = text "Profile_User.id" ∷ text "Profile_User.User.name" ∷ []
