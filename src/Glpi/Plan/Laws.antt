-- ===== src/Glpi/Plan/Laws.antt =====
-- What applying a plan does to the assignments of a user.
use mathlib.Core.List.{append_assoc, append-nil, map-append, Nodup-append, mem-map_of_mem}
use mathlib.Core.List.Perm
use permissionsync.Prelude.{
  ℕ, ◌≡◌, refl, sym, ap, ◌∙◌, inl, inr, Bool, true, false, not, List, [], ◌∷◌, ◌++◌, map, Mem, Perm,
  Nodup, ltb, Bool-cases, filter, contains, contains_iff, All-of_mem, filter-keep, filter-drop,
  filter-mono, filter-append,
}
use permissionsync.Prelude.Order.{sort-perm}
use permissionsync.Glpi.Plan.{
  CurrentRow, DesiredAssignment, Plan, pair_lt, desired_pair, addition_pair, Groups, ids, plan_loop,
  leftover, by_pair, sort_desired, compute,
}
use permissionsync.Glpi.Plan.Groups.{rows_of, by_pair-perm, by_pair-IsKeyed}
use permissionsync.Glpi.Plan.Partition.{row_access, desired_access, addition_access, kept, removed}
use permissionsync.Glpi.Plan.Loop.{loop-perm, loop-removals, loop-access}

-- The rows that are left when the rows with the listed ids are deleted.
unfoldable pub retained : List CurrentRow → List ℕ → List CurrentRow
retained current removals = filter (λ r. not (contains removals r.id)) current

leftover-ids : (g : Groups) → leftover g ≡ ids (rows_of g)
unfolding leftover rows_of
leftover-ids [] = refl
leftover-ids ((k, rows) ∷ g) =
    ap (◌++◌ (ids rows)) (leftover-ids g) ∙ sym (map-append (λ r. r.id) rows (rows_of g))

-- Deleting one side of a split leaves the other, if the ids are distinct.
retained-perm :
    (current stay go : List CurrentRow) (removals : List ℕ)
    → Nodup (ids current)
    → Perm current (stay ++ go)
    → Perm removals (ids go)
    → Perm (retained current removals) stay
unfolding retained
retained-perm current stay go removals u split gone = Perm.trans (filter-mono keep split) (
    rw
      (
        filter-append keep stay go,
        filter-keep keep stay (All-of_mem _ stay stays),
        filter-drop keep go (All-of_mem _ go goes),
        append-nil stay,
      )
      (Perm.refl stay))
  where
    keep : CurrentRow → Bool
    keep r = not (contains removals r.id)

    apart : Nodup (ids stay ++ ids go)
    apart = rw map-append at (Perm.nodup (Perm.map (λ r. r.id) split) u)

    stays : (r : CurrentRow) → Mem r stay → keep r ≡ true
    stays r m = elim (Bool-cases (contains removals r.id)) [
      | inl listed ↦ absurd (
          (Nodup-append.0 apart).2 r.id (mem-map_of_mem (λ r. r.id) m)
            ((Perm.mem_iff gone).0 ((contains_iff removals r.id).0 listed)))
      | inr free ↦ rw free refl
    ]

    goes : (r : CurrentRow) → Mem r go → keep r ≡ false
    goes r m =
        rw
          ((contains_iff removals r.id).1
            ((Perm.mem_iff (Perm.symm gone)).0 (mem-map_of_mem (λ r. r.id) m)))
          refl

module _ (current : List CurrentRow) (desired : List DesiredAssignment) where
  start : Plan
  start = record { removals = []; additions = [] }

  final : Groups × Plan
  final = plan_loop (sort_desired desired) (by_pair current) start

  stay : List CurrentRow
  stay = kept (sort_desired desired) (by_pair current)

  go : List CurrentRow
  go = removed (sort_desired desired) (by_pair current) ++ rows_of final.0

  compute-split : Nodup (ids current) → Perm current (stay ++ go)
  unfolding stay go final
  compute-split u = Perm.trans (Perm.symm (by_pair-perm current)) (
      rw (append_assoc) at (
        loop-perm (sort_desired desired) (by_pair current) start
          (Perm.nodup (Perm.map (λ r. r.id) (Perm.symm (by_pair-perm current))) u)))

  compute-removals_perm : Perm (compute current desired).removals (ids go)
  unfolding compute go final start
  compute-removals_perm = Perm.trans {l₂ = final.1.removals ++ leftover final.0} (sort-perm ltb _) (
      rw
        (
          loop-removals (sort_desired desired) (by_pair current) start,
          leftover-ids final.0,
          map-append (λ r. r.id) (removed (sort_desired desired) (by_pair current))
              (rows_of final.0),
        )
        (Perm.refl _))

  compute-access_perm :
      Perm
        (map row_access stay ++ map addition_access (compute current desired).additions)
        (map desired_access desired)
  unfolding compute stay final start sort_desired
  compute-access_perm =
      Perm.trans
        (Perm.append_left (map row_access stay) (
          Perm.map addition_access
            (sort-perm (λ a b. pair_lt (addition_pair a) (addition_pair b)) final.1.additions)))
        (Perm.trans
          (loop-access (sort_desired desired) (by_pair current) start (by_pair-IsKeyed current))
          (Perm.map desired_access
            (sort-perm (λ a b. pair_lt (desired_pair a) (desired_pair b)) desired)))

  -- With distinct row ids, the rows left after the removals of the plan, together with its
  -- additions, grant exactly the desired assignments, each as often as it is desired.
  pub compute-converges :
      Nodup (ids current)
      → Perm
          (map row_access (retained current (compute current desired).removals)
            ++ map addition_access (compute current desired).additions)
          (map desired_access desired)
  compute-converges u =
      Perm.trans
        (Perm.append_right _ (
          Perm.map row_access (
            retained-perm current stay go (compute current desired).removals u (compute-split u)
              compute-removals_perm)))
        compute-access_perm

  -- With distinct row ids, the plan removes each row at most once and no id that is not current:
  -- the ids left and the ids removed together are the current ids.
  pub compute-removals_current :
      Nodup (ids current)
      → Perm (ids current) (
          ids (retained current (compute current desired).removals)
          ++ (compute current desired).removals)
  compute-removals_current u = Perm.trans (Perm.map (λ r. r.id) (compute-split u)) (
      rw (map-append (λ r. r.id) stay go) (
        Perm.append
          (Perm.map (λ r. r.id)
            (Perm.symm (
              retained-perm current stay go (compute current desired).removals u (compute-split u)
                compute-removals_perm)))
          (Perm.symm compute-removals_perm)))
