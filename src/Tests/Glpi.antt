-- ===== src/Tests/Glpi.antt =====
-- crates/permissionsync-adapter-glpi/src/plan.rs on one user with three assignments.
use mathlib.Core.HLevel.{¬_prop}
use mathlib.Core.List.{Nodup, Perm, Pairwise}
use permissionsync.Prelude.{
  ℕ, ◌≡◌, refl, ◌↔◌, Bool, true, false, List, [], ◌∷◌, ◌++◌, map, ◌≢◌, arith, All, All-lookup,
}
use permissionsync.Glpi.Plan.{
  CurrentRow, DesiredAssignment, desired_pair, ids, compute, is_canonical,
}
use permissionsync.Glpi.Plan.Partition.{row_access, desired_access, addition_access}
use permissionsync.Glpi.Plan.Laws.{retained, compute-converges, compute-removals_current}
use permissionsync.Glpi.Plan.Canonical.{is_canonical_iff, applied-is_canonical}

abbrev row : ℕ → ℕ → ℕ → Bool → CurrentRow
row id entity profile recursive = record {
  id = id;
  entities_id = entity;
  profiles_id = profile;
  is_recursive = recursive;
}

abbrev wish : ℕ → ℕ → Bool → DesiredAssignment
wish entity profile recursive = record {
  entities_id = entity;
  profiles_id = profile;
  recursive = recursive;
}

-- A duplicate of the wished row 7, and a row that nobody wishes.
abbrev current : List CurrentRow
current = row 9 1 4 true ∷ row 7 1 4 true ∷ row 8 2 5 false ∷ []

abbrev desired : List DesiredAssignment
desired = wish 3 6 false ∷ wish 1 4 true ∷ []

abbrev made : List CurrentRow
made = row 10 3 6 false ∷ []

compute_test : compute current desired ≡ record {
  removals = 8 ∷ 9 ∷ [];
  additions = record { entities_id = 3; profiles_id = 6; recursive = false } ∷ [];
}
unfolding compute
compute_test = refl

-- Each element differs from all later ones.
abbrev Apart : {A : Type 0} → List A → Type 0
Apart [] = Unit {0}
Apart (x ∷ xs) = All (λ y. x ≢ y) xs × Apart xs

Apart-Nodup : {A : Type 0} (xs : List A) → Apart xs → Nodup xs
Apart-Nodup [] h = Pairwise.nil
Apart-Nodup (x ∷ xs) (h, hs) =
    Pairwise.cons (λ y m. All-lookup {P = λ z. x ≢ z} (λ z. ¬_prop) xs h m) (Apart-Nodup xs hs)

current-ids : Nodup (ids current)
current-ids =
    Apart-Nodup (ids current)
      ((λ e. omega arith, (λ e. omega arith, tt)), ((λ e. omega arith, tt), (tt, tt)))

desired_pairs : Nodup (map desired_pair desired)
desired_pairs = Apart-Nodup (map desired_pair desired) ((λ e. ground arith, tt), (tt, tt))

compute-converges_example :
    Perm
      (map row_access (retained current (compute current desired).removals)
        ++ map addition_access (compute current desired).additions)
      (map desired_access desired)
compute-converges_example = compute-converges current desired current-ids

compute-removals_current_example : Perm (ids current) (
    ids (retained current (compute current desired).removals) ++ (compute current desired).removals)
compute-removals_current_example = compute-removals_current current desired current-ids

is_canonical_iff_example :
    (is_canonical current desired ≡ true)
    ↔ Perm (map row_access current) (map desired_access desired)
is_canonical_iff_example = is_canonical_iff current desired current-ids desired_pairs

made-ids : Nodup (ids (retained current (compute current desired).removals ++ made))
unfolding retained compute
made-ids = Apart-Nodup (7 ∷ 10 ∷ []) ((λ e. omega arith, tt), (tt, tt))

made_access : map row_access made ≡ map addition_access (compute current desired).additions
unfolding compute
made_access = refl

applied-is_canonical_example :
    is_canonical (retained current (compute current desired).removals ++ made) desired ≡ true
applied-is_canonical_example =
    applied-is_canonical current made desired current-ids desired_pairs made_access made-ids
