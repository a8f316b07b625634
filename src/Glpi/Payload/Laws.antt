-- ===== src/Glpi/Payload/Laws.antt =====
-- crates/permissionsync-adapter-glpi/src/payload.rs: what normalisation keeps of the permissions.
use mathlib.Core.List.{Perm, foldr}
use mathlib.Core.List.Perm
use permissionsync.Prelude.{
  ◌≡◌, refl, sym, ap, subst, ◌∙◌, inl, inr, Bool, true, false, ◌||◌, List, [], ◌∷◌, map, Option,
  none, some, if◌then◌else◌, Result, ok, err, All, arith, Bool-cases,
}
use permissionsync.Glpi.Failure.{GlpiFailure, invalid_payload}
use permissionsync.Glpi.Payload.{
  RawPermission, RawPayload, CanonicalAssignment, Key, Groups, key, key_eq, key_lt, insert,
  insert_all, assignment, is_empty, any_empty, normalize,
}
use permissionsync.Glpi.Payload.Order.{key_eq_iff, key_lt_irrefl, key_lt_trans, key_lt-total}

-- The flag of a pair among groups.
abbrev pub flag_of : Key → Groups → Option Bool
flag_of k [] = none
flag_of k ((j, b) ∷ g) = if key_eq j k then some b else flag_of k g

abbrev pub union : Bool → Option Bool → Bool
union b none = b
union b (some c) = b || c

-- What the permissions say of a pair: recursive if one of them is.
abbrev pub granted : Key → List RawPermission → Option Bool
granted k [] = none
granted k (r ∷ rs) =
    let rest = granted k rs in if key_eq (key r) k then some (union r.recursive rest) else rest

-- Every key below all later ones.
abbrev pub IsAscending : Groups → Type 0
IsAscending [] = Unit {0}
IsAscending ((k, b) ∷ g) = All (λ e. key_lt k e.0 ≡ true) g × IsAscending g

above-none : (k : Key) (g : Groups) → All (λ e. key_lt k e.0 ≡ true) g → flag_of k g ≡ none
above-none k [] h = refl
above-none k ((j, b) ∷ g) (below, rest) =
    ground (arith, above-none k g rest, below, key_eq_iff j k, key_lt_irrefl k)

All-above :
    (k j : Key) (g : Groups)
    → key_lt k j ≡ true
    → All (λ e. key_lt j e.0 ≡ true) g
    → All (λ e. key_lt k e.0 ≡ true) g
All-above k j [] h hs = tt
All-above k j ((i, b) ∷ g) h (next, hs) = (key_lt_trans k j i h next, All-above k j g h hs)

insert-All :
    (k : Key) (r : RawPermission) (g : Groups)
    → key_lt k (key r) ≡ true
    → All (λ e. key_lt k e.0 ≡ true) g
    → All (λ e. key_lt k e.0 ≡ true) (insert r g)
unfolding insert
insert-All k r [] h hs = (h, tt)
insert-All k r ((j, b) ∷ g) h (next, hs) = elim (Bool-cases (key_eq (key r) j)) [
  | inl same ↦ rw same (next, hs)
  | inr other ↦ elim (Bool-cases (key_lt (key r) j)) [
    | inl before ↦ rw (other, before) (h, (next, hs))
    | inr after ↦ rw (other, after) (next, insert-All k r g h hs)
  ]
]

insert-IsAscending : (r : RawPermission) (g : Groups) → IsAscending g → IsAscending (insert r g)
unfolding insert
insert-IsAscending r [] h = (tt, tt)
insert-IsAscending r ((j, b) ∷ g) (below, h) = elim (Bool-cases (key_eq (key r) j)) [
  | inl same ↦ rw same (below, h)
  | inr other ↦ elim (Bool-cases (key_lt (key r) j)) [
    | inl before ↦ rw (other, before) ((before, All-above (key r) j g before below), (below, h))
    | inr after ↦
        rw (other, after)
          (insert-All j r g (key_lt-total (key r) j other after) below, insert-IsAscending r g h)
  ]
]

-- An insertion joins the flag of its own pair and leaves the others.
insert-flag_of :
    (k : Key) (r : RawPermission) (g : Groups)
    → IsAscending g
    → flag_of k (insert r g)
      ≡ (if key_eq (key r) k then some (union r.recursive (flag_of k g)) else flag_of k g)
unfolding insert
insert-flag_of k r [] h = ground arith
insert-flag_of k r ((j, b) ∷ g) (below, h) = elim (Bool-cases (key_eq (key r) j)) [
  | inl same ↦
      rw same (ground (arith, same, key_eq_iff (key r) j, key_eq_iff (key r) k, key_eq_iff j k))
  | inr other ↦ elim (Bool-cases (key_lt (key r) j)) [
    | inl before ↦
        rw (other, before)
          (ground (
            arith,
            key_eq_iff (key r) k,
            above-none (key r) ((j, b) ∷ g) (before, All-above (key r) j g before below),
          ))
    | inr after ↦
        rw (other, after)
          (ground (
            arith,
            other,
            insert-flag_of k r g h,
            key_eq_iff (key r) j,
            key_eq_iff (key r) k,
            key_eq_iff j k,
          ))
  ]
]

abbrev joined : Option Bool → Option Bool → Option Bool
joined none f = f
joined (some b) f = some (union b f)

joined-none : (f : Option Bool) → f ≡ joined f none
joined-none none = refl
joined-none (some b) = refl

insert_all-flag_of :
    (k : Key) (rs : List RawPermission) (g : Groups)
    → IsAscending g
    → flag_of k (insert_all rs g) ≡ joined (flag_of k g) (granted k rs)
unfolding insert_all
insert_all-flag_of k [] g h = joined-none (flag_of k g)
insert_all-flag_of k (r ∷ rs) g h =
    ground (
      arith,
      insert-flag_of k r g h,
      insert_all-flag_of k rs (insert r g) (insert-IsAscending r g h),
    )

insert_all-IsAscending :
    (rs : List RawPermission) (g : Groups) → IsAscending g → IsAscending (insert_all rs g)
unfolding insert_all
insert_all-IsAscending [] g h = h
insert_all-IsAscending (r ∷ rs) g h =
    insert_all-IsAscending rs (insert r g) (insert-IsAscending r g h)

-- A desired assignment as the entry it came from.
abbrev pub entry : CanonicalAssignment → Key × Bool
entry a = ((a.entity, a.profile), a.recursive)

entry-assignment : (g : Groups) → map entry (map assignment g) ≡ g
entry-assignment [] = refl
entry-assignment (e ∷ g) = ap (◌∷◌ e) (entry-assignment g)

entries :
    (g : Groups) {desired : List CanonicalAssignment}
    → ◌≡◌ {A = Result GlpiFailure (List CanonicalAssignment)} (ok (map assignment g)) (ok desired)
    → map entry desired ≡ g
entries g e = ap (map entry) (sym (ok_injective e)) ∙ entry-assignment g
  where
    ok_injective :
        {a b : List CanonicalAssignment}
        → ◌≡◌ {A = Result GlpiFailure (List CanonicalAssignment)} (ok a) (ok b)
        → a ≡ b
    ok_injective e = cc

-- The assignments of a normalised payload are in ascending order of their pairs, so that no pair
-- occurs twice, and a pair is assigned exactly if a permission names it, recursively exactly if one
-- of these is recursive.
pub normalize-granted :
    (raw : RawPayload) (desired : List CanonicalAssignment)
    → normalize raw ≡ ok desired
    → IsAscending (map entry desired)
      × ((k : Key) → flag_of k (map entry desired) ≡ granted k raw.permissions)
unfolding normalize
normalize-granted raw desired h =
    let groups : map entry desired ≡ insert_all raw.permissions [] =
      shown (any_empty raw.permissions) h in
    (
      subst IsAscending (sym groups) (insert_all-IsAscending raw.permissions [] tt),
      λ k. ap (flag_of k) groups ∙ insert_all-flag_of k raw.permissions [] tt,
    )
  where
    shown :
        (b : Bool)
        → (if b then err invalid_payload else ok (map assignment (insert_all raw.permissions [])))
          ≡ ok desired
        → map entry desired ≡ insert_all raw.permissions []
    shown true e = cc
    shown false e = entries (insert_all raw.permissions []) e

abbrev grant : Key → RawPermission → Option Bool → Option Bool
grant k r rest = if key_eq (key r) k then some (union r.recursive rest) else rest

granted-foldr : (k : Key) (rs : List RawPermission) → granted k rs ≡ foldr (grant k) none rs
granted-foldr k [] = refl
granted-foldr k (r ∷ rs) = ap (grant k r) (granted-foldr k rs)

grant_swap :
    (k : Key) (r q : RawPermission) (rest : Option Bool)
    → grant k r (grant k q rest) ≡ grant k q (grant k r rest)
grant_swap k r q rest = ground arith

granted-perm : (k : Key) (rs qs : List RawPermission) → Perm rs qs → granted k rs ≡ granted k qs
granted-perm k rs qs p =
    granted-foldr k rs
    ∙ Perm.foldr-eq {A = RawPermission} {B = Option Bool} (hlevel) (grant k) (grant_swap k) p none
    ∙ sym (granted-foldr k qs)

same_head :
    (k : Key) (b c : Bool) (g h : Groups)
    → b ≡ c
    → g ≡ h
    → ◌≡◌ {A = Groups} ((k, b) ∷ g) ((k, c) ∷ h)
same_head k b c g h e f = cc

tails :
    (k : Key) (b c : Bool) (g h : Groups)
    → All (λ e. key_lt k e.0 ≡ true) g
    → All (λ e. key_lt k e.0 ≡ true) h
    → ((i : Key) → flag_of i ((k, b) ∷ g) ≡ flag_of i ((k, c) ∷ h))
    → (i : Key) → flag_of i g ≡ flag_of i h
tails k b c g h above_g above_h agree i = elim (Bool-cases (key_eq k i)) [
  | inl same ↦
      subst (λ j. flag_of j g ≡ flag_of j h) ((key_eq_iff k i).0 same)
        (above-none k g above_g ∙ sym (above-none k h above_h))
  | inr other ↦ ground (arith, other, agree i)
]

-- Groups in ascending order that agree on every pair are the same.
ascending_unique :
    (g h : Groups) → IsAscending g → IsAscending h → ((k : Key) → flag_of k g ≡ flag_of k h) → g ≡ h
ascending_unique [] [] a b agree = refl
ascending_unique [] ((j, c) ∷ h) a b agree = ground (arith, agree j, key_eq_iff j j)
ascending_unique ((k, b) ∷ g) [] a c agree = ground (arith, agree k, key_eq_iff k k)
ascending_unique ((k, b) ∷ g) ((j, c) ∷ h) (above_k, a) (above_j, d) agree =
    elim (Bool-cases (key_eq k j)) [
      | inl same ↦
          subst
            (λ i.
              All (λ e. key_lt i e.0 ≡ true) h
              → ((l : Key) → flag_of l ((k, b) ∷ g) ≡ flag_of l ((i, c) ∷ h))
              → ◌≡◌ {A = Groups} ((k, b) ∷ g) ((i, c) ∷ h))
            ((key_eq_iff k j).0 same)
            (λ above agree.
              same_head k b c g h (ground (arith, agree k, key_eq_iff k k))
                (ascending_unique g h a d (tails k b c g h above_k above agree)))
            above_j agree
      | inr other ↦ elim (Bool-cases (key_lt k j)) [
        | inl before ↦ ground (
          arith,
          agree k,
          key_eq_iff k k,
          above-none k ((j, c) ∷ h) (before, All-above k j h before above_j),
        )
        | inr after ↦
            let before : key_lt j k ≡ true = key_lt-total k j other after in
            ground (
              arith,
              agree j,
              key_eq_iff j j,
              above-none j ((k, b) ∷ g) (before, All-above j k g before above_k),
            )
      ]
    ]

insert_all-perm : (rs qs : List RawPermission) → Perm rs qs → insert_all rs [] ≡ insert_all qs []
insert_all-perm rs qs p =
    ascending_unique (insert_all rs []) (insert_all qs []) (insert_all-IsAscending rs [] tt)
      (insert_all-IsAscending qs [] tt)
      (λ k.
        insert_all-flag_of k rs [] tt
        ∙ granted-perm k rs qs p
        ∙ sym (insert_all-flag_of k qs [] tt))

some_empty : RawPermission → Bool → Bool
some_empty r rest = is_empty r.entity || (is_empty r.profile || rest)

any_empty-foldr : (rs : List RawPermission) → any_empty rs ≡ foldr some_empty false rs
unfolding any_empty some_empty
any_empty-foldr [] = refl
any_empty-foldr (r ∷ rs) = ap (some_empty r) (any_empty-foldr rs)

some_empty_swap :
    (r q : RawPermission) (rest : Bool)
    → some_empty r (some_empty q rest) ≡ some_empty q (some_empty r rest)
unfolding some_empty
some_empty_swap r q rest = ground arith

any_empty-perm : (rs qs : List RawPermission) → Perm rs qs → any_empty rs ≡ any_empty qs
any_empty-perm rs qs p =
    any_empty-foldr rs
    ∙ Perm.foldr-eq {A = RawPermission} {B = Bool} (hlevel) some_empty some_empty_swap p false
    ∙ sym (any_empty-foldr qs)

-- Normalisation does not depend on the order of the permissions, nor does its refusal.
pub normalize-perm :
    (raw other : RawPayload)
    → Perm raw.permissions other.permissions
    → normalize raw ≡ normalize other
unfolding normalize
normalize-perm raw other p =
    rw
      (
        any_empty-perm raw.permissions other.permissions p,
        insert_all-perm raw.permissions other.permissions p,
      )
      refl
