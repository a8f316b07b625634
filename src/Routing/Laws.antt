-- ===== src/Routing/Laws.antt =====
-- What a router is built from, and what it resolves.
use permissionsync.Prelude.{
  ◌≡◌, refl, ap, ◌∙◌, ◌↔◌, inl, inr, ◌≢◌, false, List, [], ◌∷◌, Option, none, some, arith,
  if◌then◌else◌, Bool-cases, All, ok, ◌>>=◌, ok_or, >>=-eq-ok, Text, text_eq, text_eq_iff,
}
use mathlib.Core.Path.{fun_ext}
use permissionsync.Domain.Target.{LogicalTarget}
use permissionsync.Routing.{
  AdapterIdentifier, TargetRoute, AdapterRegistration, TargetRouterBuildError,
  duplicate_logical_target, duplicate_adapter_identifier, unknown_logical_target,
  unavailable_adapter, lookup, is_some, insert_all, insert_routes, insert_registrations, route_key,
  registration_key, TargetRouter, new, resolve,
}

-- The first value that the definitions give a key.
abbrev pub defined {ℓ κ} :
    {I : Type ℓ} {V : Type κ} → (I → Text) → (I → V) → Text → List I → Option V
defined key value k [] = none
defined key value k (i ∷ items) =
    if text_eq (key i) k then some (value i) else defined key value k items

-- No two definitions share a key.
abbrev pub IsDistinct {ℓ} : {I : Type ℓ} → (I → Text) → List I → Type 0
IsDistinct key [] = Unit
IsDistinct key (i ∷ items) = All (λ j. key i ≢ key j) items × IsDistinct key items

abbrev or_else {ℓ} : {V : Type ℓ} → Option V → Option V → Option V
or_else none o = o
or_else (some v) o = some v

module _ {ℓ κ} {I : Type ℓ} {V : Type κ} (key : I → Text) (value : I → V)
    (duplicate : I → TargetRouterBuildError) where
  lookup-insert_all :
      (m m' : List (Text × V)) (items : List I) (k : Text)
      → insert_all key value duplicate m items ≡ ok m'
      → lookup k m' ≡ or_else (lookup k m) (defined key value k items)
  unfolding insert_all lookup
  lookup-insert_all m m' [] k e = ground arith
  lookup-insert_all m m' (i ∷ items) k e = elim (Bool-cases (is_some (lookup (key i) m))) [
    | inl known ↦ ground (arith, known)
    | inr fresh ↦
        lookup-insert_all ((key i, value i) ∷ m) m' items k (ground (arith, fresh))
        ∙ elim (Bool-cases (text_eq (key i) k)) [
          | inl same ↦
              let here = (text_eq_iff (key i) k).0 same in
              rw same (ground (arith, fresh, ap (λ j. is_some (lookup j m)) here))
          | inr other ↦ rw other refl
        ]
  ]

  -- The keys that the map holds.
  abbrev Fresh : List (Text × V) → List I → Type 0
  Fresh m items = All (λ i. is_some (lookup (key i) m) ≡ false) items

  Fresh-insert :
      (m : List (Text × V)) (i : I) (items : List I)
      → Fresh m items
      → All (λ j. key i ≢ key j) items
      → Fresh ((key i, value i) ∷ m) items
  unfolding lookup
  Fresh-insert m i [] f d = tt
  Fresh-insert m i (j ∷ items) (f, fs) (d, ds) =
      (ground (arith, text_eq_iff (key i) (key j)), Fresh-insert m i items fs ds)

  insert_all-distinct :
      (m : List (Text × V)) (items : List I)
      → Fresh m items
      → IsDistinct key items
      → (m' : List (Text × V)) × (insert_all key value duplicate m items ≡ ok m')
  unfolding insert_all
  insert_all-distinct m [] f d = (m, refl)
  insert_all-distinct m (i ∷ items) (f, fs) (d, ds) =
      let (m', e) =
        insert_all-distinct ((key i, value i) ∷ m) items (Fresh-insert m i items fs d) ds in
      (m', rw f e)

  Fresh-tail :
      (m : List (Text × V)) (i : I) (items : List I)
      → Fresh ((key i, value i) ∷ m) items
      → Fresh m items × All (λ j. key i ≢ key j) items
  unfolding lookup
  Fresh-tail m i [] f = (tt, tt)
  Fresh-tail m i (j ∷ items) (f, fs) =
      let (gs, ds) = Fresh-tail m i items fs in
      ((ground (arith, f), gs), (ground (arith, f, text_eq_iff (key i) (key j)), ds))

  IsDistinct-insert_all :
      (m m' : List (Text × V)) (items : List I)
      → insert_all key value duplicate m items ≡ ok m'
      → Fresh m items × IsDistinct key items
  unfolding insert_all
  IsDistinct-insert_all m m' [] e = (tt, tt)
  IsDistinct-insert_all m m' (i ∷ items) e = elim (Bool-cases (is_some (lookup (key i) m))) [
    | inl known ↦ ground (arith, known)
    | inr fresh ↦
        let (fs, ds) =
          IsDistinct-insert_all ((key i, value i) ∷ m) m' items (ground (arith, fresh)) in
        let (gs, es) = Fresh-tail m i items fs in ((fresh, gs), (es, ds))
  ]

  Fresh-nil : (items : List I) → Fresh [] items
  unfolding lookup
  Fresh-nil [] = tt
  Fresh-nil (i ∷ items) = (refl, Fresh-nil items)

module _ {ℓ} {A : Type ℓ} (routes : List TargetRoute)
    (registrations : List (AdapterRegistration A)) where
  route_error : TargetRoute → TargetRouterBuildError
  route_error r = duplicate_logical_target r.logical_target

  registration_error : AdapterRegistration A → TargetRouterBuildError
  registration_error r = duplicate_adapter_identifier r.adapter_identifier

  routes_ok :
      IsDistinct route_key routes
      → (m : List (Text × AdapterIdentifier)) × (insert_routes routes ≡ ok m)
  unfolding route_error
  routes_ok d =
      insert_all-distinct _ (λ r. r.adapter_identifier) route_error [] routes
        (Fresh-nil _ (λ r. r.adapter_identifier) route_error routes) d

  registrations_ok :
      IsDistinct registration_key registrations
      → (n : List (Text × A)) × (insert_registrations registrations ≡ ok n)
  unfolding registration_error
  registrations_ok d =
      insert_all-distinct _ (λ r. r.adapter) registration_error [] registrations
        (Fresh-nil _ (λ r. r.adapter) registration_error registrations) d

  new-eq-ok :
      (router : TargetRouter A)
      → new routes registrations ≡ ok router
      → (insert_routes routes ≡ ok router.routes)
        × (insert_registrations registrations ≡ ok router.adapters)
  unfolding new
  new-eq-ok router e =
      let (m, first, rest) =
        >>=-eq-ok (insert_routes routes)
          (λ m.
            insert_registrations registrations >>= λ n. ok (record { routes = m; adapters = n }))
          e in
      let (n, second, built) =
        >>=-eq-ok (insert_registrations registrations)
          (λ n. ok (record { routes = m; adapters = n })) rest in
      (ground (arith, first, built), ground (arith, second, built))

  -- A router is built exactly when no logical target has two routes and no identifier two
  -- registrations.
  pub new_iff :
      ((router : TargetRouter A) × (new routes registrations ≡ ok router))
      ↔ (IsDistinct route_key routes × IsDistinct registration_key registrations)
  unfolding new route_error registration_error
  new_iff = (
    λ (router, e).
        let (first, second) = new-eq-ok router e in
        (
          (IsDistinct-insert_all _ _ _ [] router.routes routes first).1,
          (IsDistinct-insert_all _ _ _ [] router.adapters registrations second).1,
        ),
    λ (d, d').
        let (m, first) = routes_ok d in
        let (n, second) = registrations_ok d' in
        (record { routes = m; adapters = n }, rw (first, second) refl),
  )

  -- A router resolves a target to the adapter that is registered under the identifier of the
  -- target's route. It says whether the route or the registration is missing.
  pub resolve-new :
      (router : TargetRouter A) (target : LogicalTarget)
      → new routes registrations ≡ ok router
      → resolve router target ≡ (
          ok_or unknown_logical_target
            (defined route_key (λ r. r.adapter_identifier) target.value routes)
          >>= λ chosen.
              ok_or
                (unavailable_adapter chosen)
                (defined registration_key (λ r. r.adapter) chosen.identifier registrations))
  unfolding new resolve route_error registration_error
  resolve-new router target e =
      let (first, second) = new-eq-ok router e in
      rw (lookup-insert_all _ _ route_error [] router.routes routes target.value first) (
        ap
          (λ k.
            ok_or unknown_logical_target
              (defined route_key (λ r. r.adapter_identifier) target.value routes)
            >>= k)
          (fun_ext λ chosen. ap (ok_or (unavailable_adapter chosen)) (
            lookup-insert_all _ _ registration_error [] router.adapters registrations
              chosen.identifier second)))
