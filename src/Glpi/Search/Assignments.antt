-- ===== src/Glpi/Search/Assignments.antt =====
-- crates/permissionsync-adapter-glpi/src/search.rs: the current assignments of a user.
use permissionsync.Prelude.{
  ℕ, Bool, true, false, not, List, [], ◌∷◌, ◌++◌, Option, none, some, ok_or, ◌==◌, if◌then◌else◌,
  Result, ok, err, Text, text,
}
use permissionsync.Prelude.Outcome
use permissionsync.Prelude.Io.{Io, pure, ◌>>=◌, ◌>>◌, lift, guard}
use permissionsync.Prelude.Json.{Fields, as_object, get}
use permissionsync.Prelude.Shapes.{and_then, keep, as_number}
use permissionsync.Prelude.Decimal.{to_string}
use permissionsync.Domain.Context.{SynchronizationContext}
use permissionsync.Glpi.Failure.{GlpiFailure, search_pagination}
use permissionsync.Glpi.Http.{
  Environment, ValidatedConfig, GlpiSession, Method, join_url, session_headers, parse_value,
}
use permissionsync.Glpi.Session.{bare_request}
use permissionsync.Glpi.Deadline.{effective_deadline}
use permissionsync.Glpi.Plan.{CurrentRow}
use permissionsync.Glpi.Search.Options.{SearchOptions, require}
use permissionsync.Glpi.Search.Matches.{searched, exact_ids}

pub record ProfileUserItem : Type 0 where
  pub users_id : ℕ
  pub profiles_id : ℕ
  pub entities_id : ℕ
  pub is_recursive : Bool

module _ {N : Type 0} (as_u64 : N → Option ℕ) where
  abbrev pub plain_id : Text → Fields N → Option ℕ
  plain_id name m = and_then as_u64 (and_then as_number (get name m))

  abbrev pub positive_id : Text → Fields N → Option ℕ
  positive_id name m = keep (λ n. not (n == 0)) (plain_id name m)

  -- The raw integers 0 and 1.
  unfoldable pub recursive_flag : Option ℕ → Result GlpiFailure Bool
  recursive_flag none = err search_pagination
  recursive_flag (some n) =
      if n == 0 then ok false else if n == 1 then ok true else err search_pagination

  unfoldable pub parse_item : ℕ → Fields N → Result GlpiFailure ProfileUserItem
  unfolding recursive_flag get
  parse_item id m = Outcome.◌>>=◌ (ok_or search_pagination (positive_id (text "id") m)) λ item_id.
      Outcome.◌>>◌ (Outcome.guard (item_id == id) search_pagination) (
        Outcome.◌>>=◌ (ok_or search_pagination (positive_id (text "users_id") m)) λ users_id.
          Outcome.◌>>=◌ (ok_or search_pagination (positive_id (text "profiles_id") m))
            λ profiles_id.
              Outcome.◌>>=◌ (ok_or search_pagination (plain_id (text "entities_id") m))
                λ entities_id.
                  Outcome.◌>>=◌ (recursive_flag (plain_id (text "is_recursive") m)) λ recursive.
                    ok (record {
                      users_id = users_id;
                      profiles_id = profiles_id;
                      entities_id = entities_id;
                      is_recursive = recursive;
                    }))

module _ {N W : Type 0} (env : Environment N W) (config : ValidatedConfig) (session : GlpiSession)
    (context : SynchronizationContext) where
  unfoldable pub read_profile_user_item : ℕ → Io W GlpiFailure ProfileUserItem
  unfolding parse_item
  read_profile_user_item id = do
    url ← join_url env config (text "Profile_User/" ++ to_string id)
    headers ← session_headers env config session
    deadline ← effective_deadline env config context
    response ← env.request (bare_request env config Method.get url headers) deadline
    guard (response.status == 200) search_pagination
    parsed ← lift (ok_or search_pagination (parse_value env config response.body))
    members ← lift (ok_or search_pagination (as_object parsed))
    lift (parse_item env.as_u64 id members)

  abbrev pub current_row : ℕ → ProfileUserItem → CurrentRow
  current_row id item = record {
    id = id;
    entities_id = item.entities_id;
    profiles_id = item.profiles_id;
    is_recursive = item.is_recursive;
  }

  -- The loop over the candidates.
  unfoldable pub read_items : ℕ → List ℕ → Io W GlpiFailure (List CurrentRow)
  unfolding read_profile_user_item
  read_items user_id [] = pure []
  read_items user_id (id ∷ ids) = do
    item ← read_profile_user_item id
    guard (item.users_id == user_id) search_pagination
    rows ← read_items user_id ids
    let current : List CurrentRow = current_row id item ∷ rows
    pure current

  unfoldable pub read_current_assignments :
      SearchOptions → Text → ℕ → Io W GlpiFailure (List CurrentRow)
  unfolding require exact_ids read_items
  read_current_assignments options username user_id = do
    id_field ← lift (require options (text "Profile_User.id"))
    user_name_field ← lift (require options (text "Profile_User.User.name"))
    rows ←
        searched env config session context (text "Profile_User") id_field user_name_field username
          none
    candidate_ids ← lift (exact_ids env.as_u64 id_field user_name_field username false rows [])
    read_items user_id candidate_ids
