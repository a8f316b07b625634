-- ===== src/Orchestration.antt =====
-- crates/permissionsync-orchestration: one selected-target synchronization.
pub mod Trace
use permissionsync.Prelude.{
  ℕ, Bool, true, false, not, Option, none, some, Result, ok, err, ok_or, if◌then◌else◌,
}
use permissionsync.Prelude.Io.{Io, pure, throw, proceed, ◌>>=◌, ◌>>◌, lift, guard, map_err, relabel}
use permissionsync.Domain.Target.{LogicalTarget}
use permissionsync.Domain.Values.{IdentityContext, TechnicalCallerBearerToken, DesiredStateEnvelope}
use permissionsync.Domain.Context.{
  SynchronizationContext, PermissionProviderRequest, TargetAdapterRequest, PermissionProviderError,
  TargetAdapterError, ReconciliationOutcome,
}
use permissionsync.Routing.{
  TargetRouter, TargetResolutionError, unknown_logical_target, unavailable_adapter, resolve,
}

pub record SelectedTargetSynchronizationRequest : Type 0 where
  pub identity : IdentityContext
  pub target : LogicalTarget
  pub technical_caller_bearer_token : TechnicalCallerBearerToken
  pub context : SynchronizationContext

pub data SelectedTargetSynchronizationError : Type 0 where
  cancelled unknown_target target_unavailable capacity_unavailable provider_failed adapter_failed :
      SelectedTargetSynchronizationError

pub data SynchronizationCapacityError : Type 0 where
  synchronization_capacity_error : SynchronizationCapacityError

-- The ports: `is_cancelled_or_expired` of the context, the capacity with the drop of its permit,
-- the Provider, and the reconciliation of the adapter that is selected.
pub record Ports (A W : Type 0) : Type 0 where
  pub is_cancelled_or_expired : SynchronizationContext → W → Bool × W
  pub acquire : SynchronizationContext → Io W SynchronizationCapacityError (Unit {0})
  pub release : W → W
  pub provider : PermissionProviderRequest → Io W PermissionProviderError DesiredStateEnvelope
  pub reconcile : A → TargetAdapterRequest → Io W TargetAdapterError ReconciliationOutcome

pub record SelectedTargetSynchronizer (A : Type 0) : Type 0 where
  pub router : TargetRouter A
  -- Whether a locally usable Provider was supplied.
  pub has_provider : Bool

abbrev pub routing_error : TargetResolutionError → SelectedTargetSynchronizationError
routing_error unknown_logical_target = unknown_target
routing_error (unavailable_adapter identifier) = target_unavailable

abbrev pub route :
    {A : Type 0} → Result TargetResolutionError A → Result SelectedTargetSynchronizationError A
route (ok adapter) = ok adapter
route (err e) = err (routing_error e)

module _ {A W : Type 0} (p : Ports A W) where
  abbrev Step : Type 0 → Type 0
  Step B = Io W SelectedTargetSynchronizationError B

  -- `if is_cancelled_or_expired(request.context()) { return Err(Cancelled); }`
  pub check : SelectedTargetSynchronizationRequest → Step (Unit {0})
  check request w =
      let (stop, w') = p.is_cancelled_or_expired request.context w in
      if stop then (err cancelled, w') else (ok tt, w')

  pub reconciled_by :
      SelectedTargetSynchronizationRequest → A → DesiredStateEnvelope → Step ReconciliationOutcome
  unfolding check
  reconciled_by request adapter desired_state = do
    outcome ←
        map_err (λ _. adapter_failed)
          (p.reconcile adapter (record {
            identity = request.identity;
            desired_state = desired_state;
            context = request.context;
          }))
    check request
    pure outcome

  -- The stages that run while the permit is held.
  pub with_permit : SelectedTargetSynchronizationRequest → A → Step ReconciliationOutcome
  unfolding reconciled_by check
  with_permit request adapter = do
    check request
    desired_state ←
        map_err (λ _. provider_failed)
          (p.provider (record {
            identity = request.identity;
            target = request.target;
            technical_caller_bearer_token = request.technical_caller_bearer_token;
            context = request.context;
          }))
    check request
    reconciled_by request adapter desired_state

  -- The permit is dropped on every way out.
  pub dropping_permit : Step ReconciliationOutcome → Step ReconciliationOutcome
  dropping_permit body w = let (r, w') = body w in (r, p.release w')

  unfoldable pub synchronize :
      SelectedTargetSynchronizer A
      → SelectedTargetSynchronizationRequest
      → Step ReconciliationOutcome
  unfolding with_permit dropping_permit check
  synchronize s request = do
    check request
    adapter ← lift (route (resolve s.router request.target))
    check request
    guard s.has_provider provider_failed
    map_err (λ _. capacity_unavailable) (p.acquire request.context)
    dropping_permit (with_permit request adapter)
