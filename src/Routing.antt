-- ===== src/Routing.antt =====
-- crates/permissionsync-routing/src/lib.rs: logical targets to registered adapters. A hash map is
-- an association list, the entry inserted last in front; an adapter is a value of any type `A`.
pub mod Laws
use permissionsync.Prelude.{
  ℕ, ◌≡◌, Bool, true, false, List, [], ◌∷◌, Option, none, some, if◌then◌else◌, Result, ok, err,
  ◌>>=◌, ok_or, Text, text_eq,
}
use permissionsync.Domain.Target.{LogicalTarget}

pub record AdapterIdentifier : Type 0 where
  pub identifier : Text

pub record TargetRoute : Type 0 where
  pub logical_target : LogicalTarget
  pub adapter_identifier : AdapterIdentifier

pub record AdapterRegistration {ℓ} (A : Type ℓ) : Type ℓ where
  pub adapter_identifier : AdapterIdentifier
  pub adapter : A

pub data TargetRouterBuildError : Type 0 where
  duplicate_logical_target : LogicalTarget → TargetRouterBuildError
  duplicate_adapter_identifier : AdapterIdentifier → TargetRouterBuildError

pub data TargetResolutionError : Type 0 where
  unknown_logical_target : TargetResolutionError
  unavailable_adapter : AdapterIdentifier → TargetResolutionError

-- `HashMap::get` and `HashMap::contains_key`.
unfoldable pub lookup {ℓ} : {V : Type ℓ} → Text → List (Text × V) → Option V
lookup k [] = none
lookup k ((j, v) ∷ m) = if text_eq j k then some v else lookup k m

abbrev pub is_some {ℓ} : {V : Type ℓ} → Option V → Bool
is_some none = false
is_some (some v) = true

module _ {ℓ κ} {I : Type ℓ} {V : Type κ} (key : I → Text) (value : I → V)
    (duplicate : I → TargetRouterBuildError) where
  -- One of the two loops of `new`: every key is inserted once, or the loop returns at the first
  -- repeated one.
  pub insert_all : List (Text × V) → List I → Result TargetRouterBuildError (List (Text × V))
  unfolding lookup
  insert_all m [] = ok m
  insert_all m (i ∷ items) =
      let rest = insert_all ((key i, value i) ∷ m) items in
      if is_some (lookup (key i) m) then err (duplicate i) else rest

abbrev pub route_key : TargetRoute → Text
route_key r = r.logical_target.value

abbrev pub registration_key {ℓ} : {A : Type ℓ} → AdapterRegistration A → Text
registration_key r = r.adapter_identifier.identifier

-- The two loops, each from an empty map.
abbrev pub insert_routes :
    List TargetRoute → Result TargetRouterBuildError (List (Text × AdapterIdentifier))
insert_routes =
    insert_all route_key (λ r. r.adapter_identifier)
      (λ r. duplicate_logical_target r.logical_target) []

abbrev pub insert_registrations {ℓ} :
    {A : Type ℓ} → List (AdapterRegistration A) → Result TargetRouterBuildError (List (Text × A))
insert_registrations =
    insert_all registration_key (λ r. r.adapter)
      (λ r. duplicate_adapter_identifier r.adapter_identifier) []

pub record TargetRouter {ℓ} (A : Type ℓ) : Type ℓ where
  pub routes : List (Text × AdapterIdentifier)
  pub adapters : List (Text × A)

module _ {ℓ} {A : Type ℓ} where
  unfoldable pub new :
      List TargetRoute
      → List (AdapterRegistration A)
      → Result TargetRouterBuildError (TargetRouter A)
  unfolding insert_all
  new routes registrations = do
    target_routes ← insert_routes routes
    adapters ← insert_registrations registrations
    ok (record { routes = target_routes; adapters = adapters })

  unfoldable pub resolve : TargetRouter A → LogicalTarget → Result TargetResolutionError A
  unfolding lookup
  resolve router target = do
    chosen ← ok_or unknown_logical_target (lookup target.value router.routes)
    ok_or (unavailable_adapter chosen) (lookup chosen.identifier router.adapters)
