-- ===== src/Glpi/Search/Page.antt =====
-- crates/permissionsync-adapter-glpi/src/search.rs: the metadata of one page of a search.
pub mod Laws
use permissionsync.Prelude.{
  ℕ, ◌-◌, Bool, true, false, not, ◌&&◌, ◌||◌, List, [], ◌∷◌, Option, none, some, ltb, leb, ◌==◌,
  if◌then◌else◌, length, Result, ok, err, ok_or, guard, ◌>>=◌, ◌>>◌, Text, text, text_eq,
}
use mathlib.Core.Option
use permissionsync.Prelude.Json.{Value, as_str}
use permissionsync.Prelude.Shapes.{
  Slots, and_then, struct_slots, slot, as_number, as_array, to_list,
}
use permissionsync.Prelude.Decimal.{checked_add, parse_u64}
use permissionsync.Glpi.Failure.{GlpiFailure, search_pagination}

-- `str::split_once` and `str::rsplit_once`.
unfoldable pub split_once : ℕ → Text → Option (Text × Text)
split_once at [] = none
split_once at (b ∷ t) =
    let rest = Option.map (λ (l, r). (b ∷ l, r)) (split_once at t) in
    if b == at then some ([], t) else rest

unfoldable pub rsplit_once : ℕ → Text → Option (Text × Text)
rsplit_once at [] = none
rsplit_once at (b ∷ t) = elim (rsplit_once at t) [
  | some (l, r) ↦ some (b ∷ l, r)
  | none ↦ if b == at then some ([], t) else none
]

abbrev pub checked_sub : ℕ → ℕ → Option ℕ
checked_sub m n = if leb n m then some (m - n) else none

abbrev pub is_value : Option ℕ → ℕ → Bool
is_value none n = false
is_value (some m) n = m == n

pub data SearchData (N : Type 0) : Type 0 where
  missing : SearchData N
  present : List (Value N) → SearchData N

pub record WireSearchPage (N : Type 0) : Type 0 where
  pub totalcount : ℕ
  pub count : ℕ
  pub content_range : Text
  pub data_ : SearchData N

pub record SearchPage (N : Type 0) : Type 0 where
  pub total_count : ℕ
  pub count : ℕ
  pub returned_end : ℕ
  pub rows : List (Value N)

abbrev pub is_missing : {N : Type 0} → SearchData N → Bool
is_missing SearchData.missing = true
is_missing (SearchData.present values) = false

-- A range within the request and the total, of the announced width, short only at the end.
unfoldable pub range_fits : ℕ → ℕ → ℕ → ℕ → ℕ → ℕ → ℕ → Bool
unfolding checked_add
range_fits requested_start requested_end total_count count range_total returned_start returned_end =
    range_total == total_count
    && (returned_start == requested_start
        && (leb returned_start returned_end
            && (leb returned_end requested_end
                && (ltb returned_end total_count
                    && (is_value
                          (and_then (λ width. checked_add width 1)
                            (checked_sub returned_end returned_start))
                          count
                        && (returned_end == requested_end || returned_end == total_count - 1))))))

module _ {N : Type 0} (as_u64 : N → Option ℕ) (as_value : Value N → Value N)
    (document : Text → Option (Value N)) where
  abbrev pub u64_slot : ℕ → Slots N → Result GlpiFailure ℕ
  u64_slot i slots = ok_or search_pagination (and_then as_u64 (and_then as_number (slot i slots)))

  abbrev pub values : List (Value N) → List (Value N)
  values [] = []
  values (v ∷ vs) = as_value v ∷ values vs

  -- An absent `data` is `Missing`, and one that is no array is an error.
  unfoldable pub search_data : Option (Value N) → Result GlpiFailure (SearchData N)
  unfolding to_list
  search_data none = ok SearchData.missing
  search_data (some v) = elim (as_array v) [
    | none ↦ err search_pagination
    | some items ↦ ok (SearchData.present (values (to_list items)))
  ]

  unfoldable pub wire_search_page : Text → Result GlpiFailure (WireSearchPage N)
  unfolding search_data
  wire_search_page body = do
    v ← ok_or search_pagination (document body)
    slots ← ok_or search_pagination (
        struct_slots false
          (text "totalcount" ∷ text "count" ∷ text "content-range" ∷ text "data" ∷ []) v)
    totalcount ← u64_slot 0 slots
    count ← u64_slot 1 slots
    content_range ← ok_or search_pagination (and_then as_str (slot 2 slots))
    rows ← search_data (slot 3 slots)
    ok (record {
      totalcount = totalcount;
      count = count;
      content_range = content_range;
      data_ = rows;
    })

  -- No result at all: `0--1/0`, without `data`.
  unfoldable pub empty_page : WireSearchPage N → ℕ → Result GlpiFailure (SearchPage N)
  empty_page wire requested_start =
      if requested_start == 0
        && (wire.count == 0
            && (text_eq wire.content_range (text "0--1/0") && is_missing wire.data_))
      then ok (record { total_count = 0; count = wire.count; returned_end = 0; rows = [] })
      else err search_pagination

  abbrev pub parsed : Text → Result GlpiFailure ℕ
  parsed t = ok_or search_pagination (parse_u64 t)

  unfoldable pub filled_page :
      WireSearchPage N → List (Value N) → ℕ → ℕ → Result GlpiFailure (SearchPage N)
  unfolding rsplit_once split_once range_fits
  filled_page wire rows requested_start requested_end = do
    guard (not (wire.count == 0) && (wire.count == length rows && leb wire.count wire.totalcount))
        search_pagination
    parts ← ok_or search_pagination (rsplit_once 47 wire.content_range)
    range_total ← parsed parts.1
    bounds ← ok_or search_pagination (split_once 45 parts.0)
    returned_start ← parsed bounds.0
    returned_end ← parsed bounds.1
    guard
        (range_fits requested_start requested_end wire.totalcount wire.count range_total
          returned_start returned_end)
        search_pagination
    ok (record {
      total_count = wire.totalcount;
      count = wire.count;
      returned_end = returned_end;
      rows = rows;
    })

  unfoldable pub page_of : WireSearchPage N → ℕ → ℕ → Result GlpiFailure (SearchPage N)
  unfolding empty_page filled_page
  page_of wire requested_start requested_end =
      if wire.totalcount == 0 then empty_page wire requested_start else elim wire.data_ [
        | SearchData.missing ↦ err search_pagination
        | SearchData.present rows ↦ filled_page wire rows requested_start requested_end
      ]

  unfoldable pub parse_search_page : Text → ℕ → ℕ → Result GlpiFailure (SearchPage N)
  unfolding wire_search_page page_of
  parse_search_page body requested_start requested_end = do
    wire ← wire_search_page body
    page_of wire requested_start requested_end
