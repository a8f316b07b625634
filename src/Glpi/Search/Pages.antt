-- ===== src/Glpi/Search/Pages.antt =====
-- crates/permissionsync-adapter-glpi/src/search.rs: one complete search over all its pages.
pub mod Laws
use permissionsync.Prelude.{
  ℕ, zero, suc, ◌+◌, ◌<◌, Bool, true, false, not, ◌&&◌, ◌||◌, List, [], ◌∷◌, ◌++◌, Option, none,
  some, ok_or, ltb, leb, ◌==◌, if◌then◌else◌, length, Result, ok, err, Text, text, text_eq,
}
use permissionsync.Prelude.Outcome
use permissionsync.Prelude.Io.{Io, pure, throw, proceed, ◌>>=◌, ◌>>◌, lift, guard}
use permissionsync.Prelude.Json.{Value, Fields, end, field, as_object}
use permissionsync.Prelude.Shapes.{and_then}
use permissionsync.Prelude.Decimal.{u64_end, checked_add, parse_u64, to_string}
use permissionsync.Domain.Context.{SynchronizationContext}
use permissionsync.Glpi.Failure.{GlpiFailure, search_pagination}
use permissionsync.Glpi.Http.{
  Environment, ValidatedConfig, GlpiSession, Method, Pairs, Request, RawResponse, join_url,
  session_headers,
}
use permissionsync.Glpi.Session.{bare_request}
use permissionsync.Glpi.Deadline.{effective_deadline}
use permissionsync.Glpi.Search.Page.{SearchPage, is_value, parse_search_page}

abbrev pub page_size : ℕ
page_size = 50

abbrev pub is_php_trim_byte : ℕ → Bool
is_php_trim_byte b = b == 32 || (b == 9 || (b == 10 || (b == 13 || (b == 0 || b == 11))))

abbrev pub starts_with_php_trim : Text → Bool
starts_with_php_trim [] = false
starts_with_php_trim (b ∷ t) = is_php_trim_byte b

abbrev pub ends_with_php_trim : Text → Bool
ends_with_php_trim [] = false
ends_with_php_trim (b ∷ []) = is_php_trim_byte b
ends_with_php_trim (b ∷ c ∷ t) = ends_with_php_trim (c ∷ t)

abbrev pub wildcard : Bool → Text
wildcard true = text "%"
wildcard false = []

unfoldable pub exact_search_query_value : Text → Text
exact_search_query_value selector =
    text "^"
    ++ wildcard (starts_with_php_trim selector)
    ++ selector
    ++ wildcard (ends_with_php_trim selector)
    ++ text "$"

-- A row of a result, the values by option id, newest first.
abbrev pub Row : Type 0 → Type 0
Row N = List (ℕ × Value N)

unfoldable pub cell : {N : Type 0} → ℕ → Row N → Option (Value N)
cell id [] = none
cell id ((k, v) ∷ row) = if k == id then some v else cell id row

module _ {N : Type 0} where
  unfoldable pub row_from : Row N → Fields N → Result GlpiFailure (Row N)
  row_from row end = ok row
  row_from row (field k v m) = elim (parse_u64 k) [
    | none ↦ err search_pagination
    | some id ↦ row_from ((id, v) ∷ row) m
  ]

  unfoldable pub rows_from : List (Row N) → List (Value N) → Result GlpiFailure (List (Row N))
  unfolding row_from
  rows_from rows [] = ok rows
  rows_from rows (v ∷ vs) =
      Outcome.◌>>=◌ (Outcome.◌>>=◌ (ok_or search_pagination (as_object v)) (row_from []))
        λ row. rows_from (rows ++ row ∷ []) vs

-- The arguments of one search.
pub record Search : Type 0 where
  pub itemtype : Text
  pub criterion_field : ℕ
  pub criterion_value : Text
  pub forcedisplay : List ℕ
  pub sort_field : ℕ
  pub is_deleted : Option Bool

abbrev pub flag : Bool → Text
flag true = text "1"
flag false = text "0"

abbrev pub deleted_pair : Option Bool → Pairs
deleted_pair none = []
deleted_pair (some b) = (text "is_deleted", flag b) ∷ []

unfoldable pub display_pairs : ℕ → List ℕ → Pairs
unfolding to_string
display_pairs index [] = []
display_pairs index (id ∷ ids) =
    (text "forcedisplay[" ++ to_string index ++ text "]", to_string id)
    ∷ display_pairs (suc index) ids

unfoldable pub query_pairs : Search → ℕ → ℕ → Pairs
unfolding exact_search_query_value display_pairs to_string
query_pairs search start end_ =
    ((text "range", to_string start ++ text "-" ++ to_string end_)
      ∷ (text "criteria[0][field]", to_string search.criterion_field)
      ∷ (text "criteria[0][searchtype]", text "contains")
      ∷ (text "criteria[0][value]", exact_search_query_value search.criterion_value)
      ∷ (text "sort", to_string search.sort_field)
      ∷ (text "order", text "ASC")
      ∷ [])
    ++ deleted_pair search.is_deleted
    ++ display_pairs 0 search.forcedisplay

-- The variables of the loop.
pub record Cursor (N : Type 0) : Type 0 where
  pub start : ℕ
  pub expected_total : Option ℕ
  pub rows : List (Row N)

-- One round leaves the loop with its rows, or goes on.
pub data Progress (N : Type 0) : Type 0 where
  finished : List (Row N) → Progress N
  continued : Cursor N → Progress N

abbrev pub total_agrees : Option ℕ → ℕ → Bool
total_agrees none total = true
total_agrees (some expected) total = expected == total

-- `returned_end.saturating_add(1)`
abbrev pub saturating_suc : ℕ → ℕ
saturating_suc n = if ltb (n + 1) u64_end then n + 1 else n

module _ {N : Type 0} where
  -- The end of a round, over the rows so far.
  unfoldable pub advance : SearchPage N → List (Row N) → Result GlpiFailure (Progress N)
  unfolding checked_add
  advance page rows =
      if page.total_count == 0
      then ok (finished rows)
      else if not (length rows == saturating_suc page.returned_end)
      then err search_pagination
      else if length rows == page.total_count
      then ok (finished rows)
      else Outcome.◌>>=◌ (ok_or search_pagination (checked_add page.returned_end 1)) λ start.
        ok (
          continued (record { start = start; expected_total = some page.total_count; rows = rows }))

  unfoldable pub expected_status : SearchPage N → ℕ
  expected_status page = if page.count == page.total_count then 200 else 206

  -- The checks of a page against its status and the earlier total, and its rows.
  unfoldable pub accept : Cursor N → ℕ → SearchPage N → Result GlpiFailure (Progress N)
  unfolding expected_status rows_from advance
  accept cursor status page =
      if not (status == expected_status page)
      then err search_pagination
      else if not (total_agrees cursor.expected_total page.total_count)
      then err search_pagination
      else Outcome.◌>>=◌ (rows_from cursor.rows page.rows) (advance page)

abbrev pub follow :
    {N W : Type 0}
    → (Cursor N → Io W GlpiFailure (Option (List (Row N))))
    → Progress N
    → Io W GlpiFailure (Option (List (Row N)))
follow rest (finished rows) w = (ok (some rows), w)
follow rest (continued next) w = rest next w

module _ {N W : Type 0} (env : Environment N W) (config : ValidatedConfig) (session : GlpiSession)
    (search : Search) (context : SynchronizationContext) where
  abbrev pub page_request : Text → Pairs → Pairs → Request
  page_request url query headers = record (bare_request env config Method.get url headers) {
    query = query;
  }

  -- One request, with its own deadline.
  unfoldable pub fetch_page : ℕ → ℕ → Io W GlpiFailure RawResponse
  unfolding query_pairs effective_deadline
  fetch_page start end_ = do
    url ← join_url env config (text "search/" ++ search.itemtype)
    headers ← session_headers env config session
    deadline ← effective_deadline env config context
    env.request (page_request url (query_pairs search start end_) headers) deadline

  unfoldable pub judge_page : Cursor N → ℕ → RawResponse → Result GlpiFailure (Progress N)
  unfolding parse_search_page accept
  judge_page cursor end_ response =
      Outcome.◌>>=◌
        (parse_search_page env.as_u64 env.as_value env.document response.body cursor.start end_)
        (accept cursor response.status)

  abbrev pub page_to : Cursor N → ℕ → Io W GlpiFailure (Progress N)
  page_to cursor end_ =
      fetch_page cursor.start end_ >>= λ response. lift (judge_page cursor end_ response)

  -- One round of the loop.
  unfoldable pub search_page : Cursor N → Io W GlpiFailure (Progress N)
  unfolding checked_add
  search_page cursor =
      lift (ok_or search_pagination (checked_add cursor.start 49)) >>= page_to cursor

  -- The loop; `none` when the fuel ends before it does.
  unfoldable pub search_loop : ℕ → Cursor N → Io W GlpiFailure (Option (List (Row N)))
  unfolding search_page
  search_loop zero cursor = pure none
  search_loop (suc fuel) cursor = search_page cursor >>= follow (search_loop fuel)

  abbrev pub first_cursor : Cursor N
  first_cursor = record { start = 0; expected_total = none; rows = [] }

  -- Each round starts later than the one before it, so that `2 ^ 64` of them are enough.
  unfoldable pub search_all_pages : Io W GlpiFailure (List (Row N))
  unfolding search_loop
  search_all_pages =
      search_loop u64_end first_cursor >>= λ rows. lift (ok_or search_pagination rows)
