-- ===== src/Tests/Adapter.antt =====
-- crates/permissionsync-adapter-glpi/src on a server that answers from a script: a user with one
-- assignment, for whom nothing is desired.
use permissionsync.Prelude.{
  ℕ, ◌≡◌, refl, Bool, true, false, List, [], ◌∷◌, Option, none, some, if◌then◌else◌, Result, ok,
  err, Text, text, text_eq, contains, any, ◌⊎◌, ◌↔◌, ◌++◌, ◌≢◌, ◌^◌, map,
}
use mathlib.Core.List.Perm
use permissionsync.Prelude.Json.{
  Value, bool, number, string, array, object, nil, cons, Fields, end, field,
}
use permissionsync.Domain.Context.{TargetAdapterRequest, changed}
use permissionsync.Glpi.Config.{
  Library, GlpiAdapterConfig, config_error, validate, parse_base, build_tls_connector, add_anchors,
  is_plain, base_path, strip_slash,
}
use permissionsync.Glpi.Config.Laws.{base_path_iff}
use permissionsync.Glpi.Failure.{GlpiFailure, transport, incomplete_visibility}
use permissionsync.Glpi.Payload.{RawPermission, RawPayload, CanonicalAssignment, Key, normalize}
use permissionsync.Glpi.Payload.Laws.{
  flag_of, granted, entry, IsAscending, normalize-granted, normalize-perm,
}
use permissionsync.Glpi.Http.{
  Environment, ValidatedConfig, GlpiSession, RawResponse, GlpiAuthenticationSource,
}
use permissionsync.Glpi.Mutation.{parse_deleted_assignment}
use permissionsync.Glpi.Mutation.Laws.{IsConfirmation, parse_deleted_assignment-IsConfirmation}
use permissionsync.Glpi.Search.Page.{SearchPage, parse_search_page, rsplit_once}
use permissionsync.Glpi.Search.Page.Laws.{IsNone, IsFilled, parse_search_page-bounds}
use permissionsync.Glpi.Search.Pages.{Row, Search, search_loop, first_cursor, search_all_pages}
use permissionsync.Glpi.Search.Pages.Laws.{
  Rounds, search_all_pages-ends, search_all_pages-IsComplete,
}
use permissionsync.Glpi.Search.Matches.{exact_ids}
use permissionsync.Glpi.Search.Matches.Laws.{IsDistinct, names, exact_ids-names}
use permissionsync.Prelude.Shapes.{struct_slots}
use permissionsync.Prelude.Json.{get}
use permissionsync.Prelude.Decimal.{parse_u64, to_string}
use permissionsync.Glpi.Deadline.{check_context, effective_deadline}
use permissionsync.Glpi.Payload.{parse_and_normalize}
use permissionsync.Glpi.Session.{
  init_session, kill_session, force_all_entities, verify_complete_visibility,
}
use permissionsync.Glpi.Mutation.{delete_assignment}
use permissionsync.Glpi.Plan.{compute, is_canonical}
use permissionsync.Glpi.Search.Options.{resolve_search_options}
use permissionsync.Glpi.Search.Pages.{fetch_page, judge_page}
use permissionsync.Glpi.Search.Matches.{resolve_user_id}
use permissionsync.Glpi.Search.Assignments.{read_current_assignments}
use permissionsync.Glpi.Adapter.{
  clean_up, remove_all, add_all, verify, resolved_desired, reconcile, reconcile_with_session,
  in_session,
}
use permissionsync.Glpi.Adapter.Laws.{IsVerified, reconcile-IsVerified, in_session-primary}

abbrev Json : Type 0
Json = Value ℕ

abbrev pair : Text → Json → Json
pair name v = object (field name v end)

abbrev page : ℕ → Text → Fields ℕ → Json
page total range rest = object (
    field (text "totalcount") (number total)
      (field (text "count") (number total) (field (text "content-range") (string range) rest)))

abbrev rows : Json → Fields ℕ
rows row = field (text "data") (array (cons row nil)) end

-- The documents by the texts of the bodies.
abbrev documents : List (Text × Json)
documents =
    (text "payload", pair (text "permissions") (array nil))
    ∷ (text "session", pair (text "session_token") (string (text "s")))
    ∷ (text "full", pair (text "session") (pair (text "glpishowallentities") (number 1)))
    ∷ (
      text "user options",
      object (
          field (text "1") (pair (text "uid") (string (text "User.name")))
            (field (text "2") (pair (text "uid") (string (text "User.id"))) end)),
    )
    ∷ (
      text "row options",
      object (
          field (text "2") (pair (text "uid") (string (text "Profile_User.id")))
            (field (text "5") (pair (text "uid") (string (text "Profile_User.User.name"))) end)),
    )
    ∷ (
      text "user",
      page 1 (text "0-0/1")
          (rows (object (field (text "1") (string (text "u")) (field (text "2") (number 4) end)))),
    )
    ∷ (text "none", page 0 (text "0--1/0") end)
    ∷ (
      text "row",
      page 1 (text "0-0/1")
          (rows (object (field (text "2") (number 7) (field (text "5") (string (text "u")) end)))),
    )
    ∷ (
      text "item",
      object (
          field (text "id") (number 7) (
            field (text "users_id") (number 4) (
              field (text "profiles_id") (number 6) (
                field (text "entities_id") (number 0)
                  (field (text "is_recursive") (number 0) end))))),
    )
    ∷ (
      text "deleted",
      array (
          cons
            (object (field (text "7") (bool true) (field (text "message") (string (text "m")) end)))
            nil),
    )
    ∷ []

abbrev find_document : List (Text × Json) → Text → Option Json
find_document [] body = none
find_document ((name, v) ∷ docs) body =
    if text_eq name body then some v else find_document docs body

abbrev answer : List RawResponse → Result GlpiFailure RawResponse × List RawResponse
answer [] = (err transport, [])
answer (response ∷ script) = (ok response, script)

abbrev env : Environment ℕ (List RawResponse)
env = record {
  signals = record { is_cancelled = λ w. (false, w); now = λ w. (0, w) };
  checked_add = λ m n. none;
  request = λ r deadline w. answer w;
  join = λ base path. some path;
  is_header_value = λ t. true;
  as_u64 = λ n. some n;
  of_u64 = λ n. n;
  of_i64 = λ n. 0;
  document = find_document documents;
  as_value = λ v. v;
  to_vec = λ v. some [];
}

abbrev config : ValidatedConfig
config = record {
  base = text "b/";
  app_token = text "a";
  user_token = text "t";
  operation_timeout = 5;
  authentication_source = GlpiAuthenticationSource.default;
}

abbrev request : TargetAdapterRequest
request = record {
  identity = record { username = text "u"; groups = [] };
  desired_state = record {
    version = record { value = 1 };
    payload = record { json = text "payload" };
  };
  context = record { deadline = 9 };
}

abbrev found : ℕ → Text → RawResponse
found status body = record { status = status; body = body }

-- After the session, the visibility and the options: the user, who is not deleted.
abbrev resolving : List RawResponse → List RawResponse
resolving script =
    found 200 (text "session")
    ∷ found 200 (text " true\n")
    ∷ found 200 (text "full")
    ∷ found 200 (text "user options")
    ∷ found 200 (text "row options")
    ∷ found 200 (text "user")
    ∷ found 200 (text "none")
    ∷ script

-- The assignment is read, removed, and gone; the session is ended.
abbrev script : List RawResponse
script = resolving (
    found 200 (text "row")
    ∷ found 200 (text "item")
    ∷ found 200 (text "deleted")
    ∷ found 200 (text "none")
    ∷ found 200 (text "true")
    ∷ [])

run : reconcile env config request script ≡ (ok changed, [])
unfolding reconcile check_context parse_and_normalize struct_slots effective_deadline init_session
    clean_up reconcile_with_session kill_session force_all_entities verify_complete_visibility get
    resolve_search_options parse_u64 resolve_user_id fetch_page judge_page read_current_assignments
    resolved_desired compute is_canonical delete_assignment remove_all add_all verify
run = refl

reconcile-IsVerified_example : IsVerified env config request changed script []
reconcile-IsVerified_example = reconcile-IsVerified env config request changed script [] run

abbrev session : GlpiSession
session = record { token = text "s" }

-- The server does not show all entities.
refused :
    reconcile_with_session env config session request.context
      (text "u")
      []
      (found 200 (text "false") ∷ [])
    ≡ (err incomplete_visibility, [])
unfolding reconcile_with_session effective_deadline force_all_entities
refused = refl

in_session-primary_example :
    (in_session env config request [] session (found 200 (text "false") ∷ [])).0
    ≡ err incomplete_visibility
in_session-primary_example =
    in_session-primary env config request [] session incomplete_visibility
      (found 200 (text "false") ∷ []) [] refused

abbrev search : Search
search = record {
  itemtype = text "Profile_User";
  criterion_field = 5;
  criterion_value = text "u";
  forcedisplay = 2 ∷ 5 ∷ [];
  sort_field = 2;
  is_deleted = none;
}

abbrev one_row : List (Row ℕ)
one_row = ((5, string (text "u")) ∷ (2, number 7) ∷ []) ∷ []

searched :
    search_all_pages env config session search request.context (found 200 (text "row") ∷ [])
    ≡ (ok one_row, [])
unfolding search_all_pages fetch_page judge_page parse_u64 effective_deadline struct_slots
searched = refl

search_all_pages-IsComplete_example :
    Rounds env config session search request.context
      (first_cursor env config session search request.context)
      one_row
      (found 200 (text "row") ∷ [])
      []
search_all_pages-IsComplete_example =
    search_all_pages-IsComplete env config session search request.context
      (found 200 (text "row") ∷ []) [] one_row searched

search_all_pages-ends_example :
    search_loop env config session search request.context
      (2 ^ 64)
      (first_cursor env config session search request.context)
      (found 206 (text "row") ∷ [])
    ≢ (ok none, [])
search_all_pages-ends_example =
    search_all_pages-ends env config session search request.context (found 206 (text "row") ∷ []) []

abbrev row_page : SearchPage ℕ
row_page = record {
  total_count = 1;
  count = 1;
  returned_end = 0;
  rows = object (field (text "2") (number 7) (field (text "5") (string (text "u")) end)) ∷ [];
}

parsed_page : parse_search_page env.as_u64 env.as_value env.document (text "row") 0 49 ≡ ok row_page
unfolding parse_search_page struct_slots parse_u64
parsed_page = refl

parse_search_page-bounds_example : IsNone 0 row_page ⊎ IsFilled 0 49 row_page
parse_search_page-bounds_example =
    parse_search_page-bounds env.as_u64 env.as_value env.document (text "row") 0 49 row_page
      parsed_page

matched : exact_ids env.as_u64 2 5 (text "u") false one_row [] ≡ ok (7 ∷ [])
unfolding exact_ids
matched = refl

exact_ids-names_example :
    IsDistinct (7 ∷ [])
    × ((n : ℕ) → contains (7 ∷ []) n ≡ any (names env.as_u64 2 5 (text "u") false n) one_row)
exact_ids-names_example = exact_ids-names env.as_u64 2 5 (text "u") false one_row (7 ∷ []) matched

confirmed : parse_deleted_assignment env.document (text "deleted") 7 ≡ ok tt
unfolding parse_deleted_assignment
confirmed = refl

parse_deleted_assignment-IsConfirmation_example :
    (m : Fields ℕ) × (env.document (text "deleted") ≡ some (array (cons (object m) nil)))
    × IsConfirmation (to_string 7) m
parse_deleted_assignment-IsConfirmation_example =
    parse_deleted_assignment-IsConfirmation env.document (text "deleted") 7 confirmed

abbrev permission : Text → Bool → RawPermission
permission profile recursive = record {
  entity = text "e";
  profile = profile;
  recursive = recursive;
}

-- One pair twice, with different flags.
abbrev raw : RawPayload
raw = record {
  permissions =
      permission (text "q") false ∷ permission (text "p") false ∷ permission (text "q") true ∷ [];
}

abbrev normal : List CanonicalAssignment
normal =
    record { entity = text "e"; profile = text "p"; recursive = false }
    ∷ record { entity = text "e"; profile = text "q"; recursive = true }
    ∷ []

normalized : normalize raw ≡ ok normal
unfolding normalize
normalized = refl

normalize-granted_example :
    IsAscending (map entry normal)
    × ((k : Key) → flag_of k (map entry normal) ≡ granted k raw.permissions)
normalize-granted_example = normalize-granted raw normal normalized

abbrev swapped : RawPayload
swapped = record {
  permissions =
      permission (text "p") false ∷ permission (text "q") false ∷ permission (text "q") true ∷ [];
}

normalize-perm_example : normalize raw ≡ normalize swapped
normalize-perm_example = normalize-perm raw swapped (
    Perm.swap (permission (text "p") false) (permission (text "q") false)
      (permission (text "q") true ∷ []))

-- The path of an endpoint, and a configuration that is refused without a timeout.
base_path_test :
    (base_path (text "/glpi/apirest.php/") ≡ some (text "/glpi/apirest.php/"))
    × (base_path (text "/apirest.php//") ≡ none)
unfolding base_path rsplit_once strip_slash
base_path_test = (refl, refl)

base_path_iff_example :
    (base_path (text "/glpi/apirest.php") ≡ some (text "/glpi/apirest.php/")) ↔ (
      (before : Text) × (text "/glpi/apirest.php/" ≡ before ++ text "/apirest.php/")
      × ((text "/glpi/apirest.php" ≡ before ++ text "/apirest.php")
          ⊎ (text "/glpi/apirest.php" ≡ before ++ text "/apirest.php/")))
base_path_iff_example = base_path_iff (text "/glpi/apirest.php") (text "/glpi/apirest.php/")

abbrev endpoint_config : ℕ → GlpiAdapterConfig
endpoint_config seconds = record {
  endpoint = text "/apirest.php";
  app_token = text "a";
  user_token = text "u";
  operation_timeout = seconds;
  additional_trust_anchors_pem = text "pem" ∷ [];
  authentication_source = GlpiAuthenticationSource.default;
}

abbrev accepted_config : ℕ → ValidatedConfig
accepted_config seconds = record {
  base = text "/apirest.php/";
  app_token = text "a";
  user_token = text "u";
  operation_timeout = seconds;
  authentication_source = GlpiAuthenticationSource.default;
}

abbrev url_library : Library Text Text Text
url_library = record {
  parse = some;
  scheme = λ url. text "https";
  host_str = λ url. some (text "glpi.example");
  username = λ url. [];
  password = λ url. none;
  fragment = λ url. none;
  query = λ url. none;
  path = λ url. url;
  set_path = λ path url. path;
  as_str = λ url. url;
  stack_from_pem = λ pem. some (pem ∷ []);
  build = λ roots. some (text "connector");
}

validate_test :
    (validate url_library (endpoint_config 5) ≡ ok (accepted_config 5, text "connector"))
    × (validate url_library (endpoint_config 0) ≡ err config_error)
unfolding validate parse_base build_tls_connector add_anchors is_plain base_path rsplit_once
    strip_slash
validate_test = (refl, refl)
