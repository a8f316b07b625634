-- ===== src/Glpi/Plan/Groups.antt =====
-- The map of `by_pair`: its rows are the current rows, filed under their own pairs.
use mathlib.Core.List.{perm_middle, append_assoc, append-nil}
use mathlib.Core.List.Perm
use native.Mathlib.Omega.{arith}
use permissionsync.Prelude.{
  ◌≡◌, refl, sym, ap, ◌∙◌, ◌↔◌, inl, inr, true, List, [], ◌∷◌, ◌++◌, map, Perm, none, some, ltb,
  if◌then◌else◌, Bool-cases, All, All-append, subst, swap_blocks, ◌≢◌,
}
use permissionsync.Prelude.Order.{sort-All, sort-perm}
use permissionsync.Glpi.Plan.{
  CurrentRow, Pair, pair_eq, pair_lt, row_pair, Groups, push, group_from, sort_rows, by_pair, get,
  remove,
}

pub pair_eq_iff : (j k : Pair) → (pair_eq j k ≡ true) ↔ (j ≡ k)
pair_eq_iff (e, p) (f, q) = ground arith

pub pair_eq_self : (k : Pair) → pair_eq k k ≡ true
pair_eq_self k = (pair_eq_iff k k).1 refl

unfoldable pub rows_of : Groups → List CurrentRow
rows_of [] = []
rows_of ((k, rows) ∷ g) = rows ++ rows_of g

push-perm : (r : CurrentRow) (g : Groups) → Perm (rows_of (push r g)) (r ∷ rows_of g)
unfolding push rows_of
push-perm r [] = Perm.refl (r ∷ [])
push-perm r ((k, rows) ∷ g) = elim (Bool-cases (pair_eq (row_pair r) k)) [
  | inl same ↦ rw (same, push, rows_of) (rw (append_assoc) (perm_middle rows (rows_of g)))
  | inr other ↦ elim (Bool-cases (pair_lt (row_pair r) k)) [
    | inl below ↦ rw (other, below, push, rows_of) (Perm.refl _)
    | inr above ↦
        rw (other, above, push, rows_of)
          (Perm.trans (Perm.append_left rows (push-perm r g)) (perm_middle rows (rows_of g)))
  ]
]

group_from-perm :
    (g : Groups) (rows : List CurrentRow) → Perm (rows_of (group_from g rows)) (rows ++ rows_of g)
unfolding group_from
group_from-perm g [] = Perm.refl _
group_from-perm g (r ∷ rows) =
    Perm.trans (group_from-perm (push r g) rows)
      (Perm.trans (Perm.append_left rows (push-perm r g)) (perm_middle rows (rows_of g)))

abbrev sort_groups : Groups → Groups
sort_groups = map (λ (k, rows). (k, sort_rows rows))

sort_rows-perm : (rows : List CurrentRow) → Perm (sort_rows rows) rows
unfolding sort_rows
sort_rows-perm rows = sort-perm (λ r s. ltb r.id s.id) rows

sort_groups-perm : (g : Groups) → Perm (rows_of (sort_groups g)) (rows_of g)
unfolding rows_of
sort_groups-perm [] = Perm.refl []
sort_groups-perm ((k, rows) ∷ g) = Perm.append (sort_rows-perm rows) (sort_groups-perm g)

pub by_pair-perm : (current : List CurrentRow) → Perm (rows_of (by_pair current)) current
unfolding by_pair rows_of
by_pair-perm current =
    Perm.trans (sort_groups-perm (group_from [] current))
      (rw (append-nil current) at (group_from-perm [] current))

-- Every row stands under its own pair.
abbrev pub AllPaired : Pair → List CurrentRow → Type 0
AllPaired k rows = All (λ r. row_pair r ≡ k) rows

abbrev pub IsKeyed : Groups → Type 0
IsKeyed g = All (λ e. AllPaired e.0 e.1) g

push-IsKeyed : (r : CurrentRow) (g : Groups) → IsKeyed g → IsKeyed (push r g)
unfolding push
push-IsKeyed r [] h = ((refl, tt), tt)
push-IsKeyed r ((k, rows) ∷ g) (h, hs) = elim (Bool-cases (pair_eq (row_pair r) k)) [
  | inl same ↦
      rw (same, push)
        (All-append (λ s. row_pair s ≡ k) rows (r ∷ []) h ((pair_eq_iff _ k).0 same, tt), hs)
  | inr other ↦ elim (Bool-cases (pair_lt (row_pair r) k)) [
    | inl below ↦ rw (other, below, push) ((refl, tt), (h, hs))
    | inr above ↦ rw (other, above, push) (h, push-IsKeyed r g hs)
  ]
]

group_from-IsKeyed : (g : Groups) (rows : List CurrentRow) → IsKeyed g → IsKeyed (group_from g rows)
unfolding group_from
group_from-IsKeyed g [] h = h
group_from-IsKeyed g (r ∷ rows) h = group_from-IsKeyed (push r g) rows (push-IsKeyed r g h)

sort_rows-AllPaired :
    (k : Pair) (rows : List CurrentRow) → AllPaired k rows → AllPaired k (sort_rows rows)
unfolding sort_rows
sort_rows-AllPaired k rows h = sort-All (λ r s. ltb r.id s.id) (λ r. row_pair r ≡ k) rows h

sort_groups-IsKeyed : (g : Groups) → IsKeyed g → IsKeyed (sort_groups g)
sort_groups-IsKeyed [] h = tt
sort_groups-IsKeyed ((k, rows) ∷ g) (h, hs) =
    (sort_rows-AllPaired k rows h, sort_groups-IsKeyed g hs)

pub by_pair-IsKeyed : (current : List CurrentRow) → IsKeyed (by_pair current)
unfolding by_pair
by_pair-IsKeyed current = sort_groups-IsKeyed _ (group_from-IsKeyed [] current tt)

pub get-AllPaired :
    (k : Pair) (g : Groups) (rows : List CurrentRow)
    → IsKeyed g
    → get k g ≡ some rows
    → AllPaired k rows
unfolding get
get-AllPaired k [] rows h e = cc
get-AllPaired k ((j, rs) ∷ g) rows (h, hs) e = elim (Bool-cases (pair_eq j k)) [
  | inl same ↦
      let here : rs ≡ rows = ground (arith, same) in
      subst (AllPaired k) here (subst (λ i. AllPaired i rs) ((pair_eq_iff j k).0 same) h)
  | inr other ↦ get-AllPaired k g rows hs (ground (arith, other))
]

pub remove-IsKeyed : (k : Pair) (g : Groups) → IsKeyed g → IsKeyed (remove k g)
unfolding remove
remove-IsKeyed k [] h = tt
remove-IsKeyed k ((j, rs) ∷ g) (h, hs) = elim (Bool-cases (pair_eq j k)) [
  | inl same ↦ rw (same, remove) hs
  | inr other ↦ rw (other, remove) (h, remove-IsKeyed k g hs)
]

-- Taking a group out splits the rows.
pub remove-perm_some :
    (k : Pair) (g : Groups) (rows : List CurrentRow)
    → get k g ≡ some rows
    → Perm (rows_of g) (rows ++ rows_of (remove k g))
unfolding get remove rows_of
remove-perm_some k [] rows e = cc
remove-perm_some k ((j, rs) ∷ g) rows e = elim (Bool-cases (pair_eq j k)) [
  | inl same ↦
      let here : rs ≡ rows = ground (arith, same) in rw (same, remove, rows_of, here) (Perm.refl _)
  | inr other ↦
      rw (other, remove, rows_of)
        (Perm.trans (Perm.append_left rs (remove-perm_some k g rows (ground (arith, other))))
          (swap_blocks rs rows _))
]

pub remove-eq_none : (k : Pair) (g : Groups) → get k g ≡ none → remove k g ≡ g
unfolding get remove
remove-eq_none k [] e = refl
remove-eq_none k ((j, rs) ∷ g) e = ground (arith, remove-eq_none k g)

-- Taking out one group leaves the others where they were.
pub get-remove_ne : (j k : Pair) (g : Groups) → j ≢ k → get k (remove j g) ≡ get k g
unfolding get remove
get-remove_ne j k [] h = refl
get-remove_ne j k ((i, rs) ∷ g) h = elim (Bool-cases (pair_eq i j)) [
  | inl same ↦ elim (Bool-cases (pair_eq i k)) [
    | inl also ↦ absurd (h (sym ((pair_eq_iff i j).0 same) ∙ (pair_eq_iff i k).0 also))
    | inr other ↦ rw (same, other, remove, get) refl
  ]
  | inr moved ↦
      rw (moved, remove, get) (ap (λ t. if pair_eq i k then some rs else t) (get-remove_ne j k g h))
]
