-- ===== src/Glpi/Search/Page/Laws.antt =====
-- crates/permissionsync-adapter-glpi/src/search.rs: what an accepted page guarantees.
use permissionsync.Prelude.{
  ℕ, ◌+◌, ◌≤◌, ◌<◌, ◌≡◌, ◌⊎◌, true, List, [], Option, length, ok, >>=-eq-ok, Text, arith,
}
use permissionsync.Prelude.Json.{Value}
use permissionsync.Prelude.Decimal.{checked_add}
use permissionsync.Glpi.Search.Page.{
  SearchPage, WireSearchPage, range_fits, empty_page, filled_page, page_of, wire_search_page,
  parse_search_page,
}

-- A page of a non-empty result: its rows are those of the range from the requested start to
-- `returned_end`, which ends at the requested end or at the last row of the result.
abbrev pub IsFilled : {N : Type 0} → ℕ → ℕ → SearchPage N → Type 0
IsFilled start end_ page =
    (start ≤ page.returned_end)
    × (page.returned_end ≤ end_)
    × (page.returned_end < page.total_count)
    × (length page.rows + start ≡ page.returned_end + 1)
    × (page.count ≡ length page.rows)
    × ((page.returned_end ≡ end_) ⊎ (page.returned_end + 1 ≡ page.total_count))

-- A page of an empty result, which only the first request can get.
abbrev pub IsNone : {N : Type 0} → ℕ → SearchPage N → Type 0
IsNone start page = (start ≡ 0) × (page.total_count ≡ 0) × (page.rows ≡ [])

abbrev Bounds : ℕ → ℕ → ℕ → ℕ → ℕ → ℕ → Type 0
Bounds start end_ total count from to =
    (start ≤ to)
    × (to ≤ end_)
    × (to < total)
    × (count + start ≡ to + 1)
    × ((to ≡ end_) ⊎ (to + 1 ≡ total))

range_fits-Bounds :
    (start end_ total count range_total from to : ℕ)
    → range_fits start end_ total count range_total from to ≡ true
    → Bounds start end_ total count from to
unfolding range_fits checked_add
range_fits-Bounds start end_ total count range_total from to h = ground arith

module _ {N : Type 0} (as_u64 : N → Option ℕ) (as_value : Value N → Value N)
    (document : Text → Option (Value N)) where
  filled_page-IsFilled :
      (wire : WireSearchPage N) (rows : List (Value N)) (start end_ : ℕ) (page : SearchPage N)
      → filled_page as_u64 as_value document wire rows start end_ ≡ ok page
      → IsFilled start end_ page
  unfolding filled_page
  filled_page-IsFilled wire rows start end_ page h = ground (arith, range_fits-Bounds start end_)

  page_of-cases :
      (wire : WireSearchPage N) (start end_ : ℕ) (page : SearchPage N)
      → page_of as_u64 as_value document wire start end_ ≡ ok page
      → IsNone start page ⊎ IsFilled start end_ page
  unfolding page_of empty_page
  page_of-cases wire start end_ page h = ground (arith, filled_page-IsFilled wire)

  -- An accepted page is the empty result of the first request, or exactly the rows from the
  -- requested start to an end within the request and the total, short only at the end of the total.
  pub parse_search_page-bounds :
      (body : Text) (start end_ : ℕ) (page : SearchPage N)
      → parse_search_page as_u64 as_value document body start end_ ≡ ok page
      → IsNone start page ⊎ IsFilled start end_ page
  unfolding parse_search_page
  parse_search_page-bounds body start end_ page h =
      let (wire, e, fits) =
        >>=-eq-ok (wire_search_page as_u64 as_value document body)
          (λ wire. page_of as_u64 as_value document wire start end_) h in
      page_of-cases wire start end_ page fits
