-- ===== src/Glpi/Search/Matches/Laws.antt =====
-- crates/permissionsync-adapter-glpi/src/search.rs: which ids the rows of a search give.
use permissionsync.Prelude.{
  ℕ, ◌≡◌, refl, subst, inl, inr, Bool, true, false, ◌&&◌, ◌||◌, List, [], ◌∷◌, ◌++◌, Option, none,
  some, ok_or, ◌==◌, ==_iff, if◌then◌else◌, contains, any, Result, ok, err, Bool-cases, >>=-eq-ok,
  Text, text_eq, arith,
}
use permissionsync.Prelude.Outcome
use permissionsync.Glpi.Failure.{GlpiFailure, malformed_reference}
use permissionsync.Glpi.Search.Pages.{Row}
use permissionsync.Glpi.Search.Matches.{
  required_string_field, numeric_id, remember, match_row, exact_ids,
}

-- No id twice.
abbrev pub IsDistinct : List ℕ → Type 0
IsDistinct [] = Unit {0}
IsDistinct (id ∷ ids) = (contains ids id ≡ false) × IsDistinct ids

contains-snoc :
    (ids : List ℕ) (id n : ℕ) → contains (ids ++ id ∷ []) n ≡ (contains ids n || id == n)
contains-snoc [] id n = ground arith
contains-snoc (i ∷ ids) id n = ground (arith, contains-snoc ids id n)

contains-remember :
    (ids : List ℕ) (id n : ℕ) → contains (remember ids id) n ≡ (contains ids n || id == n)
contains-remember ids id n = elim (Bool-cases (contains ids id)) [
  | inl known ↦ rw known (seen ids id n known)
  | inr new ↦ rw new (contains-snoc ids id n)
]
  where
    seen :
        (ids : List ℕ) (id n : ℕ)
        → contains ids id ≡ true
        → contains ids n ≡ (contains ids n || id == n)
    seen ids id n known = elim (Bool-cases (id == n)) [
      | inl same ↦ rw same (
          subst (λ m. contains ids m ≡ (contains ids m || true)) ((==_iff id n).0 same)
            (ground (arith, known)))
      | inr other ↦ ground (arith, other)
    ]

snoc-IsDistinct :
    (ids : List ℕ) (id : ℕ) → IsDistinct ids → contains ids id ≡ false → IsDistinct (ids ++ id ∷ [])
snoc-IsDistinct [] id h new = (refl, tt)
snoc-IsDistinct (i ∷ ids) id (apart, h) new =
    (ground (arith, contains-snoc ids id i, apart), snoc-IsDistinct ids id h (ground arith))

remember-IsDistinct : (ids : List ℕ) (id : ℕ) → IsDistinct ids → IsDistinct (remember ids id)
remember-IsDistinct ids id h = elim (Bool-cases (contains ids id)) [
  | inl known ↦ rw known h
  | inr new ↦ rw new (snoc-IsDistinct ids id h new)
]

abbrev pub is_ok_text : Text → Result GlpiFailure Text → Bool
is_ok_text t (ok s) = text_eq s t
is_ok_text t (err e) = false

abbrev pub is_some_id : ℕ → Option ℕ → Bool
is_some_id n none = false
is_some_id n (some m) = m == n

ok_injective : {a b : List ℕ} → ◌≡◌ {A = Result GlpiFailure (List ℕ)} (ok a) (ok b) → a ≡ b
ok_injective e = cc

-- What a row with or without the selector adds.
Adds : List ℕ → List ℕ → Bool → Option ℕ → Type 0
Adds ids more named id =
    (IsDistinct ids → IsDistinct more)
    × ((n : ℕ) → contains more n ≡ (contains ids n || named && is_some_id n id))

added-Adds :
    (named : Bool) (id : Option ℕ) (ids more : List ℕ)
    → (if named then Outcome.map_ok (remember ids) (ok_or malformed_reference id) else ok ids)
      ≡ ok more
    → Adds ids more named id
unfolding Adds
added-Adds true none ids more h = cc
added-Adds true (some id) ids more h =
    subst (λ l. Adds ids l true (some id)) (ok_injective h)
      (remember-IsDistinct ids id, contains-remember ids id)
added-Adds false id ids more h =
    subst (λ l. Adds ids l false id) (ok_injective h) (λ d. d, λ n. ground arith)

module _ {N : Type 0} (as_u64 : N → Option ℕ) (id_field name_field : ℕ) (selector : Text)
    (allow_zero : Bool) where
  -- A row with exactly the selector as its name, and with the id.
  abbrev pub names : ℕ → Row N → Bool
  names n row =
      is_ok_text selector (required_string_field row name_field)
      && is_some_id n (numeric_id as_u64 row id_field allow_zero)

  match_row-names :
      (row : Row N) (ids more : List ℕ)
      → match_row as_u64 id_field name_field selector allow_zero row ids ≡ ok more
      → (IsDistinct ids → IsDistinct more)
        × ((n : ℕ) → contains more n ≡ (contains ids n || names n row))
  unfolding match_row Adds
  match_row-names row ids more h =
      shown (required_string_field row name_field) (numeric_id as_u64 row id_field allow_zero) h
    where
      shown :
          (name : Result GlpiFailure Text) (id : Option ℕ)
          → Outcome.◌>>=◌ name (λ name.
            if text_eq name selector
            then Outcome.map_ok (remember ids) (ok_or malformed_reference id)
            else ok ids)
            ≡ ok more
          → Adds ids more (is_ok_text selector name) id
      shown (err e) id h = cc
      shown (ok name) id h = added-Adds (text_eq name selector) id ids more h

  -- The ids of a search are distinct, and they are those of the rows whose name is exactly the
  -- selector.
  exact_ids-from :
      (rows : List (Row N)) (ids result : List ℕ)
      → IsDistinct ids
      → exact_ids as_u64 id_field name_field selector allow_zero rows ids ≡ ok result
      → IsDistinct result × ((n : ℕ) → contains result n ≡ (contains ids n || any (names n) rows))
  unfolding exact_ids
  exact_ids-from [] ids result distinct h =
      (subst IsDistinct (ok_injective h) distinct, λ n. ground (arith, ok_injective h))
  exact_ids-from (row ∷ rows) ids result distinct h =
      let (more, e, rest) =
        >>=-eq-ok (match_row as_u64 id_field name_field selector allow_zero row ids)
          (exact_ids as_u64 id_field name_field selector allow_zero rows) h in
      let (keeps, adds) = match_row-names row ids more e in
      let (fine, all) = exact_ids-from rows more result (keeps distinct) rest in
      (fine, λ n. ground (arith, adds n, all n))

  -- The ids that the rows of a search give are distinct, and an id is among them exactly if it is
  -- that of a row whose name is the selector, byte for byte.
  pub exact_ids-names :
      (rows : List (Row N)) (ids : List ℕ)
      → exact_ids as_u64 id_field name_field selector allow_zero rows [] ≡ ok ids
      → IsDistinct ids × ((n : ℕ) → contains ids n ≡ any (names n) rows)
  exact_ids-names rows ids h = exact_ids-from rows [] ids tt h
