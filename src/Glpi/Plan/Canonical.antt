-- ===== src/Glpi/Plan/Canonical.antt =====
-- When the plan is empty.
use mathlib.Core.List.{append-nil, map-append, mem-map_of_mem, exists_of_mem-map, Nodup-cons}
use mathlib.Core.List.Perm
use mathlib.Core.Logic.{∥∥₁_elim}
use mathlib.Core.Bool.{Bool-set}
use permissionsync.Prelude.{
  ℕ, ◌≡◌, refl, sym, ap, ◌∙◌, ◌↔◌, inl, inr, ◌≢◌, true, List, [], ◌∷◌, ◌++◌, map, Mem, Perm, Nodup,
  Option, none, some, arith, Option-cases, All, subst, find, All-of_mem, length, length-append,
  length-map, Perm-length, eq-nil_of_length, filter-keep, any-find, All-lookup,
}
use permissionsync.Glpi.Plan.{
  CurrentRow, DesiredAssignment, Addition, Plan, pair_lt, desired_pair, addition_pair, Groups, get,
  remove, ids, keeps, plan_found, plan_group, plan_loop, by_pair, sort_desired, finish, compute,
  is_empty, is_canonical,
}
use permissionsync.Glpi.Plan.Partition.{Access, row_access, desired_access, addition_access}
use permissionsync.Glpi.Plan.Filing.{holds, holds_in, by_pair-holds, holds-remove}
use permissionsync.Prelude.Order.{sort, sort-perm}
use permissionsync.Glpi.Plan.Laws.{retained, compute-converges, compute-removals_current}

plan_group-additions :
    (d : DesiredAssignment) (o : Option (List CurrentRow))
    → holds_in d.recursive o ≡ true
    → (plan_group d o).additions ≡ []
unfolding plan_group plan_found holds_in
plan_group-additions d none h = cc
plan_group-additions d (some rows) h = elim (Option-cases (find (keeps d) rows)) [
  | inl e ↦ cc (sym h ∙ any-find (keeps d) rows e)
  | inr (keeper, e) ↦ rw (e, plan_found) refl
]

-- While every desired assignment is held, the loop adds nothing.
loop-additions :
    (ds : List DesiredAssignment) (g : Groups) (p : Plan)
    → Nodup (map desired_pair ds)
    → All (λ d. holds (desired_access d) g ≡ true) ds
    → (plan_loop ds g p).1.additions ≡ p.additions
unfolding plan_loop
loop-additions [] g p u h = refl
loop-additions (d ∷ ds) g p u (h, hs) =
    loop-additions ds (remove (desired_pair d) g) _ (Nodup-cons.0 u).1 (
      All-of_mem _ ds (λ e m.
        holds-remove (desired_pair d) (desired_access e) g (apart e m)
          (All-lookup (λ e. Bool-set _ _) ds hs m)))
    ∙ rw (plan_group-additions d (get (desired_pair d) g) (unfold holds in h))
        (append-nil p.additions)
  where
    apart : (e : DesiredAssignment) → Mem e ds → desired_pair d ≢ desired_pair e
    apart e m same = (Nodup-cons.0 u).0 (rw same (mem-map_of_mem desired_pair m))

is_empty-parts : (p : Plan) → is_empty p ≡ true → (p.removals ≡ []) × (p.additions ≡ [])
unfolding is_empty
is_empty-parts p h = ground arith

parts-is_empty : (p : Plan) → p.removals ≡ [] → p.additions ≡ [] → is_empty p ≡ true
unfolding is_empty
parts-is_empty p r a = ground arith

retained-nil : (current : List CurrentRow) → retained current [] ≡ current
unfolding retained
retained-nil current = filter-keep _ current (All-of_mem _ current (λ r m. refl))

module _ (current : List CurrentRow) (desired : List DesiredAssignment) where
  -- An access that some current row grants is held in the map.
  granted : (a : Access) → Mem a (map row_access current) → holds a (by_pair current) ≡ true
  granted a m = ∥∥₁_elim (exists_of_mem-map m) (Bool-set _ _) (λ (r, mr, same).
      subst (λ b. holds b (by_pair current) ≡ true) same
        (All-lookup (λ r. Bool-set _ _) current (by_pair-holds current) mr))

  canonical-additions :
      Nodup (map desired_pair desired)
      → Perm (map row_access current) (map desired_access desired)
      → (compute current desired).additions ≡ []
  unfolding compute finish sort_desired sort
  canonical-additions u same = ap (sort (λ a b. pair_lt (addition_pair a) (addition_pair b))) (
      loop-additions (sort_desired desired) (by_pair current) _
        (Perm.nodup (Perm.symm (Perm.map desired_pair sorted)) u)
        (All-of_mem _ (sort_desired desired) (λ d m. granted (desired_access d) (
          (Perm.mem_iff (Perm.symm same)).0
            (mem-map_of_mem desired_access ((Perm.mem_iff sorted).0 m))))))
    where
      sorted : Perm (sort_desired desired) desired
      sorted = sort-perm (λ a b. pair_lt (desired_pair a) (desired_pair b)) desired

  canonical-removals :
      Nodup (ids current)
      → Perm (map row_access current) (map desired_access desired)
      → (compute current desired).additions ≡ []
      → (compute current desired).removals ≡ []
  canonical-removals u same none_added = eq-nil_of_length removals (
      omega (
        arith,
        Perm-length _ _ (compute-converges current desired u),
        Perm-length _ _ same,
        Perm-length _ _ (compute-removals_current current desired u),
        length-append (map row_access left) (map addition_access added),
        length-append (ids left) removals,
        length-map row_access left,
        length-map row_access current,
        length-map (λ (r : CurrentRow). r.id) current,
        length-map (λ (r : CurrentRow). r.id) left,
        length-map desired_access desired,
        length-map addition_access added,
        ap length none_added,
      ))
    where
      removals : List ℕ
      removals = (compute current desired).removals

      added : List Addition
      added = (compute current desired).additions

      left : List CurrentRow
      left = retained current removals

  empty-canonical :
      Nodup (ids current)
      → (compute current desired).removals ≡ []
      → (compute current desired).additions ≡ []
      → Perm (map row_access current) (map desired_access desired)
  empty-canonical u r a =
      rw (r, a, retained-nil current, append-nil (map row_access current)) at
        (compute-converges current desired u)

  -- With distinct row ids and distinct desired pairs, a state is canonical exactly when its rows
  -- grant the desired assignments, each as often as it is desired.
  pub is_canonical_iff :
      Nodup (ids current)
      → Nodup (map desired_pair desired)
      → (is_canonical current desired ≡ true)
        ↔ Perm (map row_access current) (map desired_access desired)
  unfolding is_canonical
  is_canonical_iff u v = (
    λ e. let (r, a) = is_empty-parts (compute current desired) e in empty-canonical u r a,
    λ same.
        let a = canonical-additions v same in
        parts-is_empty (compute current desired) (canonical-removals u same a) a,
  )

-- Once the plan has been carried out, with the rows `made` that the server made for its additions
-- and ids that are distinct again, the state is canonical: a second run has nothing to do.
pub applied-is_canonical :
    (current made : List CurrentRow) (desired : List DesiredAssignment)
    → let plan = compute current desired in
      Nodup (ids current)
      → Nodup (map desired_pair desired)
      → map row_access made ≡ map addition_access plan.additions
      → Nodup (ids (retained current plan.removals ++ made))
      → is_canonical (retained current plan.removals ++ made) desired ≡ true
applied-is_canonical current made desired u v made_for u' = (is_canonical_iff _ desired u' v).1 (
    rw (map-append row_access (retained current (compute current desired).removals) made, made_for)
      (compute-converges current desired u))
