-- ===== src/Glpi/Plan/Partition.antt =====
-- The loop of `compute` splits the current rows into those that it keeps and those that it removes.
use mathlib.Core.List.{Nodup-cons, mem-cons, mem-map_of_mem}
use mathlib.Core.List.Perm
use mathlib.Core.Logic.Or
use permissionsync.Prelude.{
  ◌≡◌, refl, sym, ap, inl, inr, Bool, true, false, not, List, [], ◌∷◌, ◌++◌, map, Mem, Perm, Nodup,
  Option, none, some, arith, ◌==◌, Bool-cases, Option-cases, bool_eq_iff, ==_iff, subst, filter,
  find, find-All,
}
use permissionsync.Glpi.Plan.{
  CurrentRow, DesiredAssignment, Addition, Pair, row_pair, desired_pair, Groups, get, remove, ids,
  keeps, plan_found, plan_group,
}
use permissionsync.Glpi.Plan.Groups.{AllPaired}

-- What a row, an assignment or an addition grants.
pub record Access : Type 0 where
  pub pair : Pair
  pub recursive : Bool

abbrev pub row_access : CurrentRow → Access
row_access r = record { pair = row_pair r; recursive = r.is_recursive }

abbrev pub desired_access : DesiredAssignment → Access
desired_access d = record { pair = desired_pair d; recursive = d.recursive }

abbrev pub addition_access : Addition → Access
addition_access a = record { pair = (a.entities_id, a.profiles_id); recursive = a.recursive }

abbrev others : CurrentRow → List CurrentRow → List CurrentRow
others keeper = filter (λ r. not (r.id == keeper.id))

find-some :
    (p : CurrentRow → Bool) (rows : List CurrentRow) (r : CurrentRow)
    → find p rows ≡ some r
    → Mem r rows × (p r ≡ true)
find-some p [] r e = cc
find-some p (x ∷ rows) r e = elim (Bool-cases (p x)) [
  | inl hit ↦
      let here : x ≡ r = ground (arith, hit) in ((mem-cons).1 (Or.inl (sym here)), rw (← here) hit)
  | inr miss ↦
      let (m, h) = find-some p rows r (ground (arith, miss)) in ((mem-cons).1 (Or.inr m), h)
]

-- No other row has the id of a row that is not in the list.
others_self :
    (keeper : CurrentRow) (rows : List CurrentRow)
    → ¬ Mem keeper.id (ids rows)
    → others keeper rows ≡ rows
others_self keeper [] h = refl
others_self keeper (r ∷ rows) h = elim (Bool-cases (r.id == keeper.id)) [
  | inl same ↦ absurd (h ((mem-cons).1 (Or.inl (sym ((==_iff _ _).0 same)))))
  | inr other ↦ rw other (ap (◌∷◌ r) (others_self keeper rows (λ m. h ((mem-cons).1 (Or.inr m)))))
]

-- With distinct ids, the rows are the keeper and the rows that are removed for it.
find-perm :
    (p : CurrentRow → Bool) (rows : List CurrentRow) (keeper : CurrentRow)
    → Nodup (ids rows)
    → find p rows ≡ some keeper
    → Perm rows (keeper ∷ others keeper rows)
find-perm p [] keeper d e = cc
find-perm p (r ∷ rows) keeper d e = elim (Bool-cases (p r)) [
  | inl hit ↦
      let here : r ≡ keeper = ground (arith, hit) in
      subst (λ k. Perm (r ∷ rows) (k ∷ others k (r ∷ rows))) here
        (rw ((==_iff r.id r.id).1 refl) (
          subst (λ l. Perm (r ∷ rows) (r ∷ l)) (sym (others_self r rows ((Nodup-cons).0 d).0))
            (Perm.refl (r ∷ rows))))
  | inr miss ↦
      let found : find p rows ≡ some keeper = ground (arith, miss) in
      let apart : (r.id == keeper.id) ≡ false =
        apart_of_mem r keeper rows d (find-some p rows keeper found).0 in
      rw apart (
        Perm.trans (Perm.cons r (find-perm p rows keeper ((Nodup-cons).0 d).1 found))
          (Perm.swap keeper r _))
]
  where
    apart_of_mem :
        (r keeper : CurrentRow) (rows : List CurrentRow)
        → Nodup (ids (r ∷ rows))
        → Mem keeper rows
        → (r.id == keeper.id) ≡ false
    apart_of_mem r keeper rows d m = elim (Bool-cases (r.id == keeper.id)) [
      | inl same ↦ absurd (
          ((Nodup-cons).0 d).0
            (subst (λ i. Mem i (ids rows)) (sym ((==_iff _ _).0 same)) (mem-map_of_mem _ m)))
      | inr other ↦ other
    ]

-- The row that stays for an assignment, and the rows that go.
unfoldable pub kept_of : DesiredAssignment → Option (List CurrentRow) → List CurrentRow
kept_of d none = []
kept_of d (some rows) = elim (find (keeps d) rows) [ some keeper ↦ keeper ∷ [] | none ↦ [] ]

unfoldable pub removed_of : DesiredAssignment → Option (List CurrentRow) → List CurrentRow
removed_of d none = []
removed_of d (some rows) = elim (find (keeps d) rows) [
  | some keeper ↦ others keeper rows
  | none ↦ rows
]

pub found-perm :
    (d : DesiredAssignment) (rows : List CurrentRow)
    → Nodup (ids rows)
    → Perm rows (kept_of d (some rows) ++ removed_of d (some rows))
unfolding kept_of removed_of
found-perm d rows u = elim (Option-cases (find (keeps d) rows)) [
  | inl e ↦ rw (e, kept_of, removed_of) (Perm.refl rows)
  | inr (keeper, e) ↦ rw (e, kept_of, removed_of) (find-perm (keeps d) rows keeper u e)
]

pub plan_group-removals :
    (d : DesiredAssignment) (o : Option (List CurrentRow))
    → (plan_group d o).removals ≡ ids (removed_of d o)
unfolding plan_group removed_of
plan_group-removals d none = refl
plan_group-removals d (some rows) = elim (Option-cases (find (keeps d) rows)) [
  | inl e ↦ rw (e, plan_found, removed_of) refl
  | inr (keeper, e) ↦ rw (e, plan_found, removed_of) refl
]

-- What is kept and what is added for an assignment grant exactly what it asks for.
pub plan_group-access :
    (d : DesiredAssignment) (o : Option (List CurrentRow))
    → ((rows : List CurrentRow) → o ≡ some rows → AllPaired (desired_pair d) rows)
    → map row_access (kept_of d o) ++ map addition_access (plan_group d o).additions
      ≡ desired_access d ∷ []
unfolding plan_group kept_of
plan_group-access d none h = refl
plan_group-access d (some rows) h = elim (Option-cases (find (keeps d) rows)) [
  | inl e ↦ rw (e, plan_found, kept_of) refl
  | inr (keeper, e) ↦
      let (paired, same) =
        find-All (λ r. row_pair r ≡ desired_pair d) (keeps d) rows keeper (h rows refl) e in
      rw (e, plan_found, kept_of)
        (ap (λ a. a ∷ [])
          (λ i. record {
            pair = paired i;
            recursive = (bool_eq_iff keeper.is_recursive d.recursive).0 same i;
          }))
]

unfoldable pub kept : List DesiredAssignment → Groups → List CurrentRow
kept [] g = []
kept (d ∷ ds) g = kept_of d (get (desired_pair d) g) ++ kept ds (remove (desired_pair d) g)

unfoldable pub removed : List DesiredAssignment → Groups → List CurrentRow
removed [] g = []
removed (d ∷ ds) g = removed_of d (get (desired_pair d) g) ++ removed ds (remove (desired_pair d) g)
