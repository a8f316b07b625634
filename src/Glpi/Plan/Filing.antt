-- ===== src/Glpi/Plan/Filing.antt =====
-- Every current row is found in the map under its own pair.
use permissionsync.Prelude.{
  ◌≡◌, refl, sym, ap, ◌∙◌, inl, inr, ◌≢◌, Bool, true, false, ◌||◌, List, [], ◌∷◌, ◌++◌, map, Option,
  none, some, arith, ltb, bool_eq, Bool-cases, All, subst, any, All-map,
}
use permissionsync.Prelude.Order.{any-sort}
use permissionsync.Glpi.Plan.{
  CurrentRow, Pair, pair_eq, pair_lt, row_pair, Groups, get, remove, push, group_from, sort_rows,
  by_pair,
}
use permissionsync.Glpi.Plan.Groups.{pair_eq_iff, pair_eq_self, get-remove_ne}
use permissionsync.Glpi.Plan.Partition.{Access, row_access}

-- Every group stands below the ones after it.
pub IsOrdered : Groups → Type 0
IsOrdered [] = Unit
IsOrdered ((k, rows) ∷ g) = All (λ e. pair_lt k e.0 ≡ true) g × IsOrdered g

pair_lt_trans : (i j k : Pair) → pair_lt i j ≡ true → pair_lt j k ≡ true → pair_lt i k ≡ true
pair_lt_trans (a, b) (c, d) (e, f) h k = ground arith

pair_lt_total : (j k : Pair) → pair_eq j k ≡ false → pair_lt j k ≡ false → pair_lt k j ≡ true
pair_lt_total (a, b) (c, d) h k = ground arith

pair_lt_ne : (j k : Pair) → pair_lt j k ≡ true → pair_eq k j ≡ false
pair_lt_ne (a, b) (c, d) h = ground arith

pair_eq_comm : (j k : Pair) → pair_eq j k ≡ pair_eq k j
pair_eq_comm (a, b) (c, d) = ground arith

All-above :
    (j k : Pair) (g : Groups)
    → pair_lt j k ≡ true
    → All (λ e. pair_lt k e.0 ≡ true) g
    → All (λ e. pair_lt j e.0 ≡ true) g
All-above j k [] h hs = tt
All-above j k ((i, rows) ∷ g) h (a, hs) = (pair_lt_trans j k i h a, All-above j k g h hs)

push_above :
    (k : Pair) (r : CurrentRow) (g : Groups)
    → pair_lt k (row_pair r) ≡ true
    → All (λ e. pair_lt k e.0 ≡ true) g
    → All (λ e. pair_lt k e.0 ≡ true) (push r g)
unfolding push
push_above k r [] h hs = (h, tt)
push_above k r ((i, rows) ∷ g) h (a, hs) = ground (arith, push_above k r g h hs)

push-IsOrdered : (r : CurrentRow) (g : Groups) → IsOrdered g → IsOrdered (push r g)
unfolding push IsOrdered
push-IsOrdered r [] o = (tt, tt)
push-IsOrdered r ((k, rows) ∷ g) (a, o) = elim (Bool-cases (pair_eq (row_pair r) k)) [
  | inl same ↦ rw (same, push) (a, o)
  | inr other ↦ elim (Bool-cases (pair_lt (row_pair r) k)) [
    | inl below ↦ rw (other, below, push) ((below, All-above (row_pair r) k g below a), (a, o))
    | inr above ↦
        rw (other, above, push)
          (push_above k r g (pair_lt_total (row_pair r) k other above) a, push-IsOrdered r g o)
  ]
]

get_above : (k : Pair) (g : Groups) → All (λ e. pair_lt k e.0 ≡ true) g → get k g ≡ none
unfolding get
get_above k [] h = refl
get_above k ((i, rows) ∷ g) (a, h) = rw (pair_lt_ne k i a) (get_above k g h)

-- Whether the group of the access's pair holds a row with its flag.
abbrev pub flagged : Bool → CurrentRow → Bool
flagged flag r = bool_eq r.is_recursive flag

unfoldable pub holds_in : Bool → Option (List CurrentRow) → Bool
holds_in flag none = false
holds_in flag (some rows) = any (flagged flag) rows

unfoldable pub holds : Access → Groups → Bool
unfolding holds_in
holds a g = holds_in a.recursive (get a.pair g)

any-append :
    (p : CurrentRow → Bool) (xs ys : List CurrentRow) → any p (xs ++ ys) ≡ (any p xs || any p ys)
any-append p [] ys = refl
any-append p (x ∷ xs) ys = ground (arith, any-append p xs ys)

flagged_self : (r : CurrentRow) → flagged r.is_recursive r ≡ true
flagged_self r = ground arith

holds-push_new : (r : CurrentRow) (g : Groups) → holds (row_access r) (push r g) ≡ true
unfolding holds push get
holds-push_new r [] = ground (arith, pair_eq_self (row_pair r), flagged_self r)
holds-push_new r ((k, rows) ∷ g) = elim (Bool-cases (pair_eq (row_pair r) k)) [
  | inl same ↦
      rw (same, push)
        (rw (pair_eq_comm k (row_pair r) ∙ same)
          (any-append (flagged r.is_recursive) rows (r ∷ []) ∙ ground (arith, flagged_self r)))
  | inr other ↦ elim (Bool-cases (pair_lt (row_pair r) k)) [
    | inl below ↦
        rw (other, below, push) (rw (pair_eq_self (row_pair r)) (ground (arith, flagged_self r)))
    | inr above ↦
        rw (other, above, push) (rw (pair_eq_comm k (row_pair r) ∙ other) (holds-push_new r g))
  ]
]

-- A row that is filed already stays where it is found.
holds-push_old :
    (a : Access) (r : CurrentRow) (g : Groups)
    → IsOrdered g
    → holds a g ≡ true
    → holds a (push r g) ≡ true
unfolding holds push get IsOrdered
holds-push_old a r [] o h = cc
holds-push_old a r ((k, rows) ∷ g) (over, o) h = elim (Bool-cases (pair_eq (row_pair r) k)) [
  | inl same ↦
      rw (same, push)
        (elim (Bool-cases (pair_eq k a.pair)) [
          | inl here ↦
              rw here (any-append (flagged a.recursive) rows (r ∷ []) ∙ ground (arith, here))
          | inr there ↦ rw there (rw there at h)
        ])
  | inr other ↦ elim (Bool-cases (pair_lt (row_pair r) k)) [
    | inl below ↦
        rw (other, below, push)
          (elim (Bool-cases (pair_eq (row_pair r) a.pair)) [
            | inl here ↦ absurd (hidden here below)
            | inr there ↦ rw there h
          ])
    | inr above ↦
        rw (other, above, push)
          (elim (Bool-cases (pair_eq k a.pair)) [
            | inl here ↦ rw here (rw here at h)
            | inr there ↦ rw there (holds-push_old a r g o (rw there at h))
          ])
  ]
]
  where
    -- No group below the first one was there before.
    hidden : pair_eq (row_pair r) a.pair ≡ true → pair_lt (row_pair r) k ≡ true → ⊥
    hidden here below =
        let same = (pair_eq_iff (row_pair r) a.pair).0 here in
        let absent : get a.pair ((k, rows) ∷ g) ≡ none =
          subst (λ i. get i ((k, rows) ∷ g) ≡ none) same
            (get_above (row_pair r) ((k, rows) ∷ g)
              (below, All-above (row_pair r) k g below over)) in
        cc (sym h ∙ ap (holds_in a.recursive) absent)

any-sort_rows :
    (p : CurrentRow → Bool) (rows : List CurrentRow) → any p (sort_rows rows) ≡ any p rows
unfolding sort_rows
any-sort_rows p rows = any-sort (λ r s. ltb r.id s.id) p rows

holds-sorted :
    (a : Access) (g : Groups) → holds a (map (λ (k, rows). (k, sort_rows rows)) g) ≡ holds a g
unfolding holds get
holds-sorted a [] = refl
holds-sorted a ((k, rows) ∷ g) = elim (Bool-cases (pair_eq k a.pair)) [
  | inl here ↦ rw here (any-sort_rows (flagged a.recursive) rows)
  | inr there ↦ rw there (holds-sorted a g)
]

group_from_old :
    (a : Access) (rows : List CurrentRow) (g : Groups)
    → IsOrdered g
    → holds a g ≡ true
    → holds a (group_from g rows) ≡ true
unfolding group_from
group_from_old a [] g o h = h
group_from_old a (r ∷ rows) g o h =
    group_from_old a rows (push r g) (push-IsOrdered r g o) (holds-push_old a r g o h)

group_from_new :
    (rows : List CurrentRow) (g : Groups)
    → IsOrdered g
    → All (λ r. holds (row_access r) (group_from g rows) ≡ true) rows
unfolding group_from
group_from_new [] g o = tt
group_from_new (r ∷ rows) g o = (
  group_from_old (row_access r) rows (push r g) (push-IsOrdered r g o) (holds-push_new r g),
  group_from_new rows (push r g) (push-IsOrdered r g o),
)

pub by_pair-holds :
    (current : List CurrentRow) → All (λ r. holds (row_access r) (by_pair current) ≡ true) current
unfolding by_pair IsOrdered
by_pair-holds current =
    All-map (λ r e. holds-sorted (row_access r) (group_from [] current) ∙ e) current
      (group_from_new current [] tt)

-- Taking out the group of another pair changes nothing for an access.
pub holds-remove :
    (k : Pair) (a : Access) (g : Groups)
    → k ≢ a.pair
    → holds a g ≡ true
    → holds a (remove k g) ≡ true
unfolding holds
holds-remove k a g apart h = ap (holds_in a.recursive) (get-remove_ne k a.pair g apart) ∙ h
