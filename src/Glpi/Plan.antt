-- ===== src/Glpi/Plan.antt =====
-- crates/permissionsync-adapter-glpi/src/plan.rs: the reconciliation plan.
-- The `BTreeMap` is an association list in ascending order of its keys.
pub mod Groups
pub mod Partition
pub mod Loop
pub mod Laws
pub mod Filing
pub mod Canonical
use permissionsync.Prelude.{
  ℕ, ◌≡◌, Bool, true, false, not, ◌&&◌, ◌||◌, List, [], ◌∷◌, ◌++◌, map, Option, none, some, ltb,
  ◌==◌, if◌then◌else◌, bool_eq, filter, find,
}
use permissionsync.Prelude.Order.{sort}

pub record CurrentRow : Type 0 where
  pub id : ℕ
  pub entities_id : ℕ
  pub profiles_id : ℕ
  pub is_recursive : Bool

pub record DesiredAssignment : Type 0 where
  pub entities_id : ℕ
  pub profiles_id : ℕ
  pub recursive : Bool

pub record Addition : Type 0 where
  pub entities_id : ℕ
  pub profiles_id : ℕ
  pub recursive : Bool

pub record Plan : Type 0 where
  pub removals : List ℕ
  pub additions : List Addition

pub is_empty : Plan → Bool
is_empty p = elim p.removals [ [] ↦ elim p.additions [ [] ↦ true | _ ∷ _ ↦ false ] | _ ∷ _ ↦ false ]

-- The key of the map, and its lexicographic order.
abbrev pub Pair : Type 0
Pair = ℕ × ℕ

abbrev pub pair_eq : Pair → Pair → Bool
pair_eq (e, p) (f, q) = e == f && p == q

abbrev pub pair_lt : Pair → Pair → Bool
pair_lt (e, p) (f, q) = ltb e f || e == f && ltb p q

abbrev pub row_pair : CurrentRow → Pair
row_pair r = (r.entities_id, r.profiles_id)

abbrev pub desired_pair : DesiredAssignment → Pair
desired_pair d = (d.entities_id, d.profiles_id)

abbrev pub addition_pair : Addition → Pair
addition_pair a = (a.entities_id, a.profiles_id)

abbrev pub Groups : Type 0
Groups = List (Pair × List CurrentRow)

-- `entry(key).or_default().push(row)`.
pub push : CurrentRow → Groups → Groups
push r [] = (row_pair r, r ∷ []) ∷ []
push r ((k, rows) ∷ g) =
    if pair_eq (row_pair r) k
    then (k, rows ++ r ∷ []) ∷ g
    else if pair_lt (row_pair r) k
    then (row_pair r, r ∷ []) ∷ (k, rows) ∷ g
    else (k, rows) ∷ push r g

pub group_from : Groups → List CurrentRow → Groups
unfolding push
group_from g [] = g
group_from g (r ∷ rows) = group_from (push r g) rows

pub sort_rows : List CurrentRow → List CurrentRow
unfolding sort
sort_rows = sort (λ r s. ltb r.id s.id)

-- `by_pair`, each of its groups in ascending order of the row ids.
pub by_pair : List CurrentRow → Groups
unfolding group_from sort_rows
by_pair current = map (λ (k, rows). (k, sort_rows rows)) (group_from [] current)

-- `by_pair.remove(&key)`.
pub get : Pair → Groups → Option (List CurrentRow)
get k [] = none
get k ((j, rows) ∷ g) = if pair_eq j k then some rows else get k g

pub remove : Pair → Groups → Groups
remove k [] = []
remove k ((j, rows) ∷ g) = if pair_eq j k then g else (j, rows) ∷ remove k g

abbrev pub addition : DesiredAssignment → Addition
addition d = record {
  entities_id = d.entities_id;
  profiles_id = d.profiles_id;
  recursive = d.recursive;
}

abbrev pub ids : List CurrentRow → List ℕ
ids = map (λ r. r.id)

abbrev pub keeps : DesiredAssignment → CurrentRow → Bool
keeps d r = bool_eq r.is_recursive d.recursive

-- What one desired assignment contributes, given the group of its pair.
pub plan_found : DesiredAssignment → List CurrentRow → Plan
plan_found d rows = elim (find (keeps d) rows) [
  | some keeper ↦ record {
    removals = ids (filter (λ r. not (r.id == keeper.id)) rows);
    additions = [];
  }
  | none ↦ record { removals = ids rows; additions = addition d ∷ [] }
]

pub plan_group : DesiredAssignment → Option (List CurrentRow) → Plan
unfolding plan_found
plan_group d none = record { removals = []; additions = addition d ∷ [] }
plan_group d (some rows) = plan_found d rows

-- `removals.extend` and `additions.push`.
abbrev pub extend : Plan → Plan → Plan
extend p step = record {
  removals = p.removals ++ step.removals;
  additions = p.additions ++ step.additions;
}

-- The loop over the desired assignments, over the map and the plan so far.
pub plan_loop : List DesiredAssignment → Groups → Plan → Groups × Plan
unfolding get remove plan_group
plan_loop [] g p = (g, p)
plan_loop (d ∷ ds) g p =
    plan_loop ds (remove (desired_pair d) g) (extend p (plan_group d (get (desired_pair d) g)))

-- The removal of the groups that are left.
pub leftover : Groups → List ℕ
leftover [] = []
leftover ((k, rows) ∷ g) = ids rows ++ leftover g

pub sort_desired : List DesiredAssignment → List DesiredAssignment
unfolding sort
sort_desired = sort (λ a b. pair_lt (desired_pair a) (desired_pair b))

pub finish : Groups → Plan → Plan
unfolding leftover sort
finish g p = record {
  removals = sort ltb (p.removals ++ leftover g);
  additions = sort (λ a b. pair_lt (addition_pair a) (addition_pair b)) p.additions;
}

unfoldable pub compute : List CurrentRow → List DesiredAssignment → Plan
unfolding by_pair plan_loop sort_desired finish
compute current desired =
    let (g, p) =
      plan_loop (sort_desired desired) (by_pair current)
        (record { removals = []; additions = [] }) in
    finish g p

unfoldable pub is_canonical : List CurrentRow → List DesiredAssignment → Bool
unfolding compute is_empty
is_canonical current desired = is_empty (compute current desired)
