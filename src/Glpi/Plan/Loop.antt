-- ===== src/Glpi/Plan/Loop.antt =====
-- The whole loop of `compute`: what it keeps, what it removes and what it adds.
use mathlib.Core.List.{append_assoc, append-nil, map-append, Nodup-append}
use mathlib.Core.List.Perm
use permissionsync.Prelude.{
  ◌≡◌, sym, ◌∙◌, inl, inr, List, [], ◌∷◌, ◌++◌, map, Perm, Nodup, Option-cases, swap_blocks,
}
use permissionsync.Glpi.Plan.{
  CurrentRow, DesiredAssignment, Plan, Pair, desired_pair, Groups, get, remove, ids, plan_group,
  plan_loop, extend,
}
use permissionsync.Glpi.Plan.Groups.{
  rows_of, IsKeyed, get-AllPaired, remove-IsKeyed, remove-perm_some, remove-eq_none,
}
use permissionsync.Glpi.Plan.Partition.{
  row_access, desired_access, addition_access, kept_of, removed_of, found-perm, plan_group-removals,
  plan_group-access, kept, removed,
}

module _ {ℓ} {A : Type ℓ} where
  regroup :
      (k r ks rs z : List A) → Perm ((k ++ r) ++ ((ks ++ rs) ++ z)) (((k ++ ks) ++ (r ++ rs)) ++ z)
  regroup k r ks rs z = simp append_assoc (Perm.append_left k (swap_blocks r ks (rs ++ z)))

  hoist : (k p a ds : List A) → Perm (k ++ ((p ++ a) ++ ds)) (p ++ ((k ++ a) ++ ds))
  hoist k p a ds = simp append_assoc (swap_blocks k p (a ++ ds))

group-perm :
    (d : DesiredAssignment) (g : Groups)
    → Nodup (ids (rows_of g))
    → let o = get (desired_pair d) g in
      Perm (rows_of g) ((kept_of d o ++ removed_of d o) ++ rows_of (remove (desired_pair d) g))
unfolding kept_of removed_of
group-perm d g u = elim (Option-cases (get (desired_pair d) g)) [
  | inl e ↦ rw e (rw (remove-eq_none (desired_pair d) g e) (Perm.refl (rows_of g)))
  | inr (rows, e) ↦
      let split = remove-perm_some (desired_pair d) g rows e in
      rw e (Perm.trans split (Perm.append_right _ (found-perm d rows (front-Nodup rows _ split))))
]
  where
    front-Nodup : (rows rest : List CurrentRow) → Perm (rows_of g) (rows ++ rest) → Nodup (ids rows)
    front-Nodup rows rest split =
        ((Nodup-append).0 (rw map-append at (Perm.nodup (Perm.map (λ r. r.id) split) u))).0

remove-Nodup :
    (k : Pair) (g : Groups) → Nodup (ids (rows_of g)) → Nodup (ids (rows_of (remove k g)))
remove-Nodup k g u = elim (Option-cases (get k g)) [
  | inl e ↦ rw (remove-eq_none k g e) u
  | inr (rows, e) ↦
      ((Nodup-append).0
        (rw map-append at (Perm.nodup (Perm.map (λ r. r.id) (remove-perm_some k g rows e)) u))).1
]

pub loop-perm :
    (ds : List DesiredAssignment) (g : Groups) (p : Plan)
    → Nodup (ids (rows_of g))
    → Perm (rows_of g) ((kept ds g ++ removed ds g) ++ rows_of (plan_loop ds g p).0)
unfolding plan_loop kept removed
loop-perm [] g p u = Perm.refl (rows_of g)
loop-perm (d ∷ ds) g p u = Perm.trans (group-perm d g u) (
    Perm.trans
      (Perm.append_left _
        (loop-perm ds (remove (desired_pair d) g) _ (remove-Nodup (desired_pair d) g u)))
      (regroup _ _ (kept ds (remove (desired_pair d) g)) _ _))

pub loop-removals :
    (ds : List DesiredAssignment) (g : Groups) (p : Plan)
    → (plan_loop ds g p).1.removals ≡ p.removals ++ ids (removed ds g)
unfolding plan_loop removed
loop-removals [] g p = sym (append-nil p.removals)
loop-removals (d ∷ ds) g p =
    let o = get (desired_pair d) g in
    loop-removals ds (remove (desired_pair d) g) _
    ∙ rw (plan_group-removals d o) (simp (append_assoc, map-append))

pub loop-access :
    (ds : List DesiredAssignment) (g : Groups) (p : Plan)
    → IsKeyed g
    → Perm
        (map row_access (kept ds g) ++ map addition_access (plan_loop ds g p).1.additions)
        (map addition_access p.additions ++ map desired_access ds)
unfolding plan_loop kept
loop-access [] g p h = rw (append-nil (map addition_access p.additions)) (Perm.refl _)
loop-access (d ∷ ds) g p h =
    let o = get (desired_pair d) g in
    let step = plan_group d o in
    let rest =
      loop-access ds (remove (desired_pair d) g) (extend p step)
        (remove-IsKeyed (desired_pair d) g h) in
    let split = plan_group-access d o (λ rows. get-AllPaired (desired_pair d) g rows h) in
    rw (map-append row_access (kept_of d o) (kept ds (remove (desired_pair d) g)), append_assoc)
      (Perm.trans (Perm.append_left (map row_access (kept_of d o)) rest) (
        rw (map-append addition_access p.additions step.additions)
          (Perm.trans (hoist _ (map addition_access p.additions) _ _) (rw split (Perm.refl _)))))
