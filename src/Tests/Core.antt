-- ===== src/Tests/Core.antt =====
-- crates/permissionsync-core and crates/permissionsync-routing on small inputs.
use permissionsync.Prelude.{ℕ, ◌≡◌, refl, ◌↔◌, List, [], ◌∷◌, ok, err, ok_or, ◌>>=◌, Text, text}
use permissionsync.Domain.Target.{LogicalTarget, invalid_logical_target, try_from}
use permissionsync.Domain.Target.Grammar.{Matches, try_from_iff}
use permissionsync.Routing.{
  AdapterIdentifier, TargetRoute, AdapterRegistration, TargetRouter, unknown_logical_target,
  unavailable_adapter, registration_key, route_key, new, resolve,
}
use permissionsync.Routing.Laws.{defined, IsDistinct, new_iff, resolve-new}

try_from_accepts : try_from (text "glpi.main") ≡ ok (record { value = text "glpi.main" })
unfolding try_from
try_from_accepts = refl

try_from_refuses : try_from (text "glpi-") ≡ err invalid_logical_target
unfolding try_from
try_from_refuses = refl

try_from_iff_example :
    ((try_from (text "glpi") ≡ ok (record { value = text "glpi" })) ↔ Matches (text "glpi"))
    × ((try_from (text "glpi") ≡ err invalid_logical_target) ↔ (¬ Matches (text "glpi")))
try_from_iff_example = try_from_iff (text "glpi")

abbrev glpi : AdapterIdentifier
glpi = record { identifier = text "a" }

abbrev target : Text → LogicalTarget
target value = record { value = value }

-- Two targets that share one adapter; the third route's adapter is not registered.
abbrev routes : List TargetRoute
routes =
    record { logical_target = target (text "x"); adapter_identifier = glpi }
    ∷ record { logical_target = target (text "y"); adapter_identifier = glpi }
    ∷ record {
      logical_target = target (text "z");
      adapter_identifier = record { identifier = text "b" };
    }
    ∷ []

abbrev registrations : List (AdapterRegistration ℕ)
registrations = record { adapter_identifier = glpi; adapter = 5 } ∷ []

abbrev router : TargetRouter ℕ
router = record {
  routes = (text "z", record { identifier = text "b" }) ∷ (text "y", glpi) ∷ (text "x", glpi) ∷ [];
  adapters = (text "a", 5) ∷ [];
}

new_test : new routes registrations ≡ ok router
unfolding new
new_test = refl

new_iff_example :
    ((r : TargetRouter ℕ) × (new routes registrations ≡ ok r))
    ↔ (IsDistinct route_key routes × IsDistinct registration_key registrations)
new_iff_example = new_iff routes registrations

resolve-new_example : resolve router (target (text "z")) ≡ (
    ok_or unknown_logical_target (defined route_key (λ r. r.adapter_identifier) (text "z") routes)
    >>= λ chosen.
        ok_or
          (unavailable_adapter chosen)
          (defined registration_key (λ r. r.adapter) chosen.identifier registrations))
resolve-new_example = resolve-new routes registrations router (target (text "z")) new_test

resolve_test :
    resolve router (target (text "z"))
    ≡ err (unavailable_adapter (record { identifier = text "b" }))
unfolding resolve
resolve_test = refl
