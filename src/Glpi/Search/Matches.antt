-- ===== src/Glpi/Search/Matches.antt =====
-- crates/permissionsync-adapter-glpi/src/search.rs: exact matches among the rows of a search, and
-- the ids of entities, profiles and users.
pub mod Laws
use permissionsync.Prelude.{
  ℕ, Bool, true, false, not, ◌&&◌, ◌||◌, List, [], ◌∷◌, ◌++◌, Option, none, some, ok_or, ltb, ◌==◌,
  if◌then◌else◌, contains, length, Result, ok, err, Text, text, text_eq,
}
use permissionsync.Prelude.Outcome
use permissionsync.Prelude.Io.{Io, pure, proceed, ◌>>=◌, ◌>>◌, lift}
use permissionsync.Prelude.Json.{Value, null, bool, number, string, array, object, as_str}
use permissionsync.Prelude.Shapes.{and_then, keep}
use permissionsync.Prelude.Decimal.{parse_u64}
use permissionsync.Domain.Context.{SynchronizationContext}
use permissionsync.Glpi.Failure.{
  GlpiFailure, search_pagination, malformed_reference, missing_reference, ambiguous_reference,
}
use permissionsync.Glpi.Http.{Environment, ValidatedConfig, GlpiSession}
use permissionsync.Glpi.Search.Options.{SearchOptions, require}
use permissionsync.Glpi.Search.Pages.{Row, cell, Search, search_all_pages}

module _ {N : Type 0} where
  unfoldable pub required_string_field : Row N → ℕ → Result GlpiFailure Text
  unfolding cell
  required_string_field row id = ok_or search_pagination (and_then as_str (cell id row))

  abbrev pub numeric : (N → Option ℕ) → Value N → Option ℕ
  numeric as_u64 (number n) = as_u64 n
  numeric as_u64 (string s) = parse_u64 s
  numeric as_u64 null = none
  numeric as_u64 (bool b) = none
  numeric as_u64 (array vs) = none
  numeric as_u64 (object m) = none

  unfoldable pub numeric_id : (N → Option ℕ) → Row N → ℕ → Bool → Option ℕ
  unfolding cell
  numeric_id as_u64 row id allow_zero =
      keep (λ n. allow_zero || not (n == 0)) (and_then (numeric as_u64) (cell id row))

-- `if seen.insert(id) { matches.push(id) }`
abbrev pub remember : List ℕ → ℕ → List ℕ
remember ids id = if contains ids id then ids else ids ++ id ∷ []

module _ {N : Type 0} (as_u64 : N → Option ℕ) (id_field name_field : ℕ) (selector : Text)
    (allow_zero : Bool) where
  -- What one row adds to the ids of the exact matches.
  unfoldable pub match_row : Row N → List ℕ → Result GlpiFailure (List ℕ)
  unfolding required_string_field numeric_id
  match_row row ids = Outcome.◌>>=◌ (required_string_field row name_field) λ name.
      if text_eq name selector
      then Outcome.map_ok (remember ids)
          (ok_or malformed_reference (numeric_id as_u64 row id_field allow_zero))
      else ok ids

  -- The loop over the rows that `resolve_exact_id`, `exact_positive_ids` and
  -- `read_current_assignments` share.
  unfoldable pub exact_ids : List (Row N) → List ℕ → Result GlpiFailure (List ℕ)
  unfolding match_row
  exact_ids [] ids = ok ids
  exact_ids (row ∷ rows) ids = Outcome.◌>>=◌ (match_row row ids) (exact_ids rows)

-- Exactly one match.
unfoldable pub only_one : List ℕ → Result GlpiFailure ℕ
only_one [] = err missing_reference
only_one (id ∷ []) = ok id
only_one (id ∷ next ∷ ids) = err ambiguous_reference

abbrev pub first : List ℕ → Option ℕ
first [] = none
first (id ∷ ids) = some id

abbrev pub is_nonempty : List ℕ → Bool
is_nonempty [] = false
is_nonempty (id ∷ ids) = true

-- At most one active match, and no deleted one.
unfoldable pub user_of : List ℕ → List ℕ → Result GlpiFailure (Option ℕ)
user_of active_matches deleted_matches =
    if is_nonempty deleted_matches || ltb 1 (length active_matches)
    then err ambiguous_reference
    else ok (first active_matches)

module _ {N W : Type 0} (env : Environment N W) (config : ValidatedConfig) (session : GlpiSession)
    (context : SynchronizationContext) where
  abbrev pub search_for : Text → ℕ → ℕ → Text → Option Bool → Search
  search_for itemtype id_field name_field selector is_deleted = record {
    itemtype = itemtype;
    criterion_field = name_field;
    criterion_value = selector;
    forcedisplay = id_field ∷ name_field ∷ [];
    sort_field = id_field;
    is_deleted = is_deleted;
  }

  abbrev pub searched : Text → ℕ → ℕ → Text → Option Bool → Io W GlpiFailure (List (Row N))
  searched itemtype id_field name_field selector is_deleted =
      search_all_pages env config session
        (search_for itemtype id_field name_field selector is_deleted) context

  unfoldable pub resolve_exact_id : Text → ℕ → ℕ → Text → Bool → Io W GlpiFailure ℕ
  unfolding search_all_pages exact_ids only_one
  resolve_exact_id itemtype id_field name_field selector allow_zero_id = do
    rows ← searched itemtype id_field name_field selector none
    matches ← lift (exact_ids env.as_u64 id_field name_field selector allow_zero_id rows [])
    lift (only_one matches)

  unfoldable pub resolve_entity_id : SearchOptions → Text → Io W GlpiFailure ℕ
  unfolding resolve_exact_id require
  resolve_entity_id options selector = do
    id_field ← lift (require options (text "Entity.id"))
    name_field ← lift (require options (text "Entity.completename"))
    resolve_exact_id (text "Entity") id_field name_field selector true

  unfoldable pub resolve_profile_id : SearchOptions → Text → Io W GlpiFailure ℕ
  unfolding resolve_exact_id require
  resolve_profile_id options selector = do
    id_field ← lift (require options (text "Profile.id"))
    name_field ← lift (require options (text "Profile.name"))
    resolve_exact_id (text "Profile") id_field name_field selector false

  unfoldable pub exact_positive_ids : List (Row N) → ℕ → ℕ → Text → Result GlpiFailure (List ℕ)
  unfolding exact_ids
  exact_positive_ids rows id_field name_field selector =
      exact_ids env.as_u64 id_field name_field selector false rows []

  unfoldable pub resolve_user_id : SearchOptions → Text → Io W GlpiFailure (Option ℕ)
  unfolding search_all_pages exact_positive_ids user_of require
  resolve_user_id options username = do
    id_field ← lift (require options (text "User.id"))
    name_field ← lift (require options (text "User.name"))
    active_rows ← searched (text "User") id_field name_field username (some false)
    deleted_rows ← searched (text "User") id_field name_field username (some true)
    active_matches ← lift (exact_positive_ids active_rows id_field name_field username)
    deleted_matches ← lift (exact_positive_ids deleted_rows id_field name_field username)
    lift (user_of active_matches deleted_matches)
