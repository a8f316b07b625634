-- ===== src/Glpi/Search/Pages/Laws.antt =====
-- crates/permissionsync-adapter-glpi/src/search.rs: the rounds of the loop over the pages.
use permissionsync.Prelude.{
  ℕ, zero, suc, ◌+◌, ◌≤◌, ◌<◌, ◌≡◌, ◌≢◌, refl, ◌⊎◌, true, List, [], ◌∷◌, ◌++◌, Option, none, some,
  length, ok, ok_or, ap, sym, subst, ◌∙◌, >>=-eq-ok, arith, length-append,
}
use permissionsync.Prelude.Outcome
use permissionsync.Prelude.Io.{lift, proceed-eq-ok}
use permissionsync.Prelude.Json.{Value, as_object}
use permissionsync.Prelude.Decimal.{u64_end, checked_add}
use permissionsync.Domain.Context.{SynchronizationContext}
use permissionsync.Glpi.Failure.{search_pagination}
use permissionsync.Glpi.Http.{Environment, ValidatedConfig, GlpiSession, RawResponse}
use permissionsync.Glpi.Search.Page.{SearchPage, parse_search_page}
use permissionsync.Glpi.Search.Page.Laws.{IsNone, IsFilled, parse_search_page-bounds}
use permissionsync.Glpi.Search.Pages.{
  Row, Search, Cursor, Progress, finished, continued, advance, accept, row_from, rows_from,
  fetch_page, judge_page, page_to, follow, search_page, search_loop, first_cursor, search_all_pages,
  expected_status, total_agrees,
}

ok_or-some : {A : Type 0} (o : Option A) {a : A} → ok_or search_pagination o ≡ ok a → o ≡ some a
ok_or-some none h = cc
ok_or-some (some a) h = cc

agreed :
    (expected : Option ℕ) (count : ℕ)
    → total_agrees expected count ≡ true
    → (total : ℕ) → expected ≡ some total
    → total ≡ count
agreed none count h total e = ground arith
agreed (some n) count h total e = ground arith

module _ {N : Type 0} where
  -- The rows so far are those before the next start.
  abbrev IsAligned : Cursor N → Type 0
  IsAligned cursor = length cursor.rows ≡ cursor.start

  -- What a round makes of an accepted page.
  abbrev Advances : Cursor N → SearchPage N → Progress N → Type 0
  Advances cursor page (finished rows) = length rows ≡ page.total_count
  Advances cursor page (continued next) =
      (cursor.start < next.start) × (next.start < u64_end) × IsAligned next

  advance-Advances :
      (cursor : Cursor N) (page : SearchPage N) (rows : List (Row N)) (progress : Progress N)
      → (page.total_count ≡ 0 → length rows ≡ 0)
      → (page.total_count ≢ 0 → cursor.start ≤ page.returned_end)
      → advance page rows ≡ ok progress
      → Advances cursor page progress
  unfolding advance checked_add
  advance-Advances cursor page rows (finished result) none_left later h = ground arith
  advance-Advances cursor page rows (continued next) none_left later h = ground arith

  rows_from-length :
      (rows : List (Row N)) (vs : List (Value N)) (result : List (Row N))
      → rows_from rows vs ≡ ok result
      → length result ≡ length rows + length vs
  unfolding rows_from
  rows_from-length rows [] result h = ground arith
  rows_from-length rows (v ∷ vs) result h =
      let (row, e, rest) =
        >>=-eq-ok (Outcome.◌>>=◌ (ok_or search_pagination (as_object v)) (row_from []))
          (λ row. rows_from (rows ++ row ∷ []) vs) h in
      omega
        (arith, rows_from-length (rows ++ row ∷ []) vs result rest, length-append rows (row ∷ []))

  -- The rows that a finished round leaves, and the cursor of one that goes on.
  advance-last :
      (page : SearchPage N) (rows result : List (Row N))
      → advance page rows ≡ ok (finished result)
      → rows ≡ result
  unfolding advance
  advance-last page rows result h = ground arith

  advance-next :
      (page : SearchPage N) (rows : List (Row N)) (next : Cursor N)
      → advance page rows ≡ ok (continued next)
      → (next.rows ≡ rows) × (next.expected_total ≡ some page.total_count)
  unfolding advance
  advance-next page rows next h = ground arith

  accept-parts :
      (cursor : Cursor N) (status : ℕ) (page : SearchPage N) (progress : Progress N)
      → accept cursor status page ≡ ok progress
      → (status ≡ expected_status page)
        × (total_agrees cursor.expected_total page.total_count ≡ true)
        × (Outcome.◌>>=◌ (rows_from cursor.rows page.rows) (advance page) ≡ ok progress)
  unfolding accept
  accept-parts cursor status page progress h = ground arith

  accept-Advances :
      (cursor : Cursor N) (status end_ : ℕ) (page : SearchPage N) (progress : Progress N)
      → IsAligned cursor
      → IsNone cursor.start page ⊎ IsFilled cursor.start end_ page
      → accept cursor status page ≡ ok progress
      → Advances cursor page progress
  accept-Advances cursor status end_ page progress aligned shape h =
      let (rows, e, rest) =
        >>=-eq-ok (rows_from cursor.rows page.rows) (advance page)
          (accept-parts cursor status page progress h).2 in
      let total : length rows ≡ length cursor.rows + length page.rows =
        rows_from-length cursor.rows page.rows rows e in
      advance-Advances cursor page rows progress
        (λ none_left. ground (arith, shape, aligned, total, none_left))
        (λ some_left. ground (arith, shape, some_left)) rest

module _ {N W : Type 0} (env : Environment N W) (config : ValidatedConfig) (session : GlpiSession)
    (search : Search) (context : SynchronizationContext) where
  -- One round from `w` to `w'`: the response to the request for the rows from the cursor's start, a
  -- page with the total of the pages before it, and the rows with those of the page.
  pub record Round (cursor : Cursor N) (rows : List (Row N)) (w w' : W) : Type 0 where
    pub end_ : ℕ
    pub range : checked_add cursor.start 49 ≡ some end_
    pub response : RawResponse
    pub fetched :
        fetch_page env config session search context cursor.start end_ w ≡ (ok response, w')
    pub page : SearchPage N
    pub parsed :
        parse_search_page env.as_u64 env.as_value env.document response.body cursor.start end_
        ≡ ok page
    pub status : response.status ≡ expected_status page
    pub agrees : (total : ℕ) → cursor.expected_total ≡ some total → total ≡ page.total_count
    pub appended : rows_from cursor.rows page.rows ≡ ok rows

  -- A search from `w` to `w'`, round by round: it goes on after the last row that it has, with the
  -- total of the page, and ends with as many rows as that total.
  pub data Rounds : Cursor N → List (Row N) → W → W → Type 0 where
    last :
        {cursor : Cursor N} {rows : List (Row N)} {w w' : W}
        → (round : Round cursor rows w w') → length rows ≡ round.page.total_count
        → Rounds cursor rows w w'
    more :
        {cursor next : Cursor N} {so_far rows : List (Row N)} {w between w' : W}
        → (round : Round cursor so_far w between) → next.rows ≡ so_far
        → next.start ≡ length so_far
        → next.expected_total ≡ some round.page.total_count
        → Rounds next rows between w'
        → Rounds cursor rows w w'

  -- A round with its progress.
  abbrev Progressed : Cursor N → Progress N → W → W → Type 0
  Progressed cursor progress w w' =
      (rows : List (Row N)) × (round : Round cursor rows w w') × (advance round.page rows
        ≡ ok progress)
      × Advances cursor round.page progress

  search_page-Progressed :
      (cursor : Cursor N) (progress : Progress N) (w w' : W)
      → IsAligned cursor
      → search_page env config session search context cursor w ≡ (ok progress, w')
      → Progressed cursor progress w w'
  unfolding search_page judge_page
  search_page-Progressed cursor progress w w' aligned h =
      let (end_, w1, e1, h1) =
        proceed-eq-ok (page_to env config session search context cursor)
          (lift (ok_or search_pagination (checked_add cursor.start 49)) w) h in
      let (response, w2, e2, h2) =
        proceed-eq-ok
          (λ response. lift (judge_page env config session search context cursor end_ response))
          (fetch_page env config session search context cursor.start end_ w1) h1 in
      let (page, parsed, accepted) =
        >>=-eq-ok
          (parse_search_page env.as_u64 env.as_value env.document response.body cursor.start end_)
          (accept cursor response.status) (ap (λ r. r.0) h2) in
      let (status, agrees, chained) = accept-parts cursor response.status page progress accepted in
      let (rows, appended, advanced) =
        >>=-eq-ok (rows_from cursor.rows page.rows) (advance page) chained in
      (
        rows,
        record {
          end_ = end_;
          range = ok_or-some (checked_add cursor.start 49) (ap (λ r. r.0) e1);
          response = response;
          fetched =
              ap (fetch_page env config session search context cursor.start end_) (ap (λ r. r.1) e1)
              ∙ e2
              ∙ ap (λ x. (ok response, x)) (ap (λ r. r.1) h2);
          page = page;
          parsed = parsed;
          status = status;
          agrees = agreed cursor.expected_total page.total_count agrees;
          appended = appended;
        },
        advanced,
        accept-Advances cursor response.status end_ page progress aligned
            (parse_search_page-bounds env.as_u64 env.as_value env.document response.body
              cursor.start end_ page parsed)
            accepted,
      )

  -- With an aligned cursor, the loop ends before its fuel does.
  search_loop-ends :
      (fuel : ℕ) (cursor : Cursor N) (w w' : W)
      → IsAligned cursor
      → cursor.start < u64_end
      → u64_end ≤ cursor.start + fuel
      → search_loop env config session search context fuel cursor w ≢ (ok none, w')
  unfolding search_loop
  search_loop-ends zero cursor w w' aligned below enough h = omega arith
  search_loop-ends (suc fuel) cursor w w' aligned below enough h =
      let (progress, w1, e, rest) =
        proceed-eq-ok (follow (search_loop env config session search context fuel))
          (search_page env config session search context cursor w) h in
      let (rows, round, advanced, moved) = search_page-Progressed cursor progress w w1 aligned e in
      elim progress
          as (λ p.
            Advances cursor round.page p
            → follow (search_loop env config session search context fuel) p w1 ≢ (ok none, w')) [
              | finished rows ↦ λ moved rest. cc
              | continued next ↦ λ (later, below_end, next_aligned) rest.
                  search_loop-ends fuel next w1 w' next_aligned below_end (omega arith) rest
            ]
        moved rest

  search_loop-Rounds :
      (fuel : ℕ) (cursor : Cursor N) (w w' : W) (rows : List (Row N))
      → IsAligned cursor
      → search_loop env config session search context fuel cursor w ≡ (ok (some rows), w')
      → Rounds cursor rows w w'
  unfolding search_loop
  search_loop-Rounds zero cursor w w' rows aligned h = cc
  search_loop-Rounds (suc fuel) cursor w w' rows aligned h =
      let (progress, w1, e, rest) =
        proceed-eq-ok (follow (search_loop env config session search context fuel))
          (search_page env config session search context cursor w) h in
      let (so_far, round, advanced, moved) =
        search_page-Progressed cursor progress w w1 aligned e in
      elim progress
          as (λ p.
            advance round.page so_far ≡ ok p
            → Advances cursor round.page p
            → follow (search_loop env config session search context fuel) p w1
              ≡ (ok (some rows), w')
            → Rounds cursor rows w w') [
              | finished result ↦ λ advanced moved rest.
                  let same = advance-last round.page so_far result advanced in
                  let all : result ≡ rows = cc in
                  subst (λ r. Rounds cursor r w w') (same ∙ all)
                    (subst (λ x. Rounds cursor so_far w x) (ap (λ r. r.1) rest)
                      (last round (ap length same ∙ moved)))
              | continued next ↦ λ advanced (later, below_end, next_aligned) rest.
                  let (same, total) = advance-next round.page so_far next advanced in
                  more round same (sym next_aligned ∙ ap length same) total
                    (search_loop-Rounds fuel next w1 w' rows next_aligned rest)
            ]
        advanced moved rest

  -- Whatever the server answers, a search ends: its loop never uses up the fuel.
  pub search_all_pages-ends :
      (w w' : W)
      → search_loop env config session search context u64_end
          (first_cursor env config session search context)
          w
        ≢ (ok none, w')
  search_all_pages-ends w w' =
      search_loop-ends u64_end (first_cursor env config session search context) w w' refl
        (omega arith) (omega arith)

  -- A search succeeds only by consecutive rounds from the first row on: each page is parsed from the
  -- response to the request for the rows after those that the search has, all pages have the same
  -- total, and the rows of the pages in their order are the result, as many as that total.
  pub search_all_pages-IsComplete :
      (w w' : W) (rows : List (Row N))
      → search_all_pages env config session search context w ≡ (ok rows, w')
      → Rounds (first_cursor env config session search context) rows w w'
  unfolding search_all_pages
  search_all_pages-IsComplete w w' rows h =
      let (result, w1, e, rest) =
        proceed-eq-ok (λ rows. lift (ok_or search_pagination rows))
          (search_loop env config session search context u64_end
            (first_cursor env config session search context) w)
          h in
      search_loop-Rounds u64_end (first_cursor env config session search context) w w' rows refl (
        e
        ∙ ap (λ r. (ok r, w1)) (ok_or-some result (ap (λ r. r.0) rest))
        ∙ ap (λ x. (ok (some rows), x)) (ap (λ r. r.1) rest))
