-- ===== src/Orchestration/Trace.antt =====
-- The conversation of one synchronization with its ports, recorded call by call.
pub mod Stages
use mathlib.Core.List.{append_assoc}
use permissionsync.Prelude.{
  ◌≡◌, refl, sym, ap, ◌∙◌, Bool, true, false, List, [], ◌∷◌, ◌++◌, Result, ok, err, if◌then◌else◌,
  subst,
}
use permissionsync.Prelude.Io.{Io, proceed, relabel, pure, map_err, ◌>>=◌, lift, guard}
use permissionsync.Domain.Values.{DesiredStateEnvelope}
use permissionsync.Domain.Context.{
  PermissionProviderRequest, TargetAdapterRequest, PermissionProviderError, TargetAdapterError,
  ReconciliationOutcome,
}
use permissionsync.Routing.{
  resolve, TargetResolutionError, unknown_logical_target, unavailable_adapter,
}
use permissionsync.Orchestration.{
  SelectedTargetSynchronizationRequest, SelectedTargetSynchronizationError, cancelled,
  capacity_unavailable, provider_failed, adapter_failed, SynchronizationCapacityError, Ports,
  SelectedTargetSynchronizer, routing_error, route, check, reconciled_by, with_permit,
  dropping_permit, synchronize,
}

pub data Event (A : Type 0) : Type 0 where
  checked : Bool → Event A
  acquired : Result SynchronizationCapacityError (Unit {0}) → Event A
  provided :
      PermissionProviderRequest → Result PermissionProviderError DesiredStateEnvelope → Event A
  reconciled : A → TargetAdapterRequest → Result TargetAdapterError ReconciliationOutcome → Event A
  released : Event A

abbrev pub note :
    {A W R : Type 0} → (R → Event A) → List (Event A) → R × W → R × (W × List (Event A))
note event log (r, w) = (r, (w, log ++ event r ∷ []))

-- Ports that also write down each call with its answer.
unfoldable pub recording : {A W : Type 0} → Ports A W → Ports A (W × List (Event A))
recording p = record {
  is_cancelled_or_expired =
      λ context (w, log). note checked log (p.is_cancelled_or_expired context w);
  acquire = λ context (w, log). note acquired log (p.acquire context w);
  release = λ (w, log). (p.release w, log ++ released ∷ []);
  provider = λ request (w, log). note (provided request) log (p.provider request w);
  reconcile = λ adapter request (w, log).
      note (reconciled adapter request) log (p.reconcile adapter request w);
}

abbrev pub provider_request : SelectedTargetSynchronizationRequest → PermissionProviderRequest
provider_request r = record {
  identity = r.identity;
  target = r.target;
  technical_caller_bearer_token = r.technical_caller_bearer_token;
  context = r.context;
}

abbrev pub adapter_request :
    SelectedTargetSynchronizationRequest → DesiredStateEnvelope → TargetAdapterRequest
adapter_request r desired = record {
  identity = r.identity;
  desired_state = desired;
  context = r.context;
}

abbrev pub Outcome : Type 0
Outcome = Result SelectedTargetSynchronizationError ReconciliationOutcome

module _ {A : Type 0} (request : SelectedTargetSynchronizationRequest) where
  -- What may follow the Provider's answer, up to the release of the permit.
  pub data AfterProvider (adapter : A) (desired : DesiredStateEnvelope)
      : List (Event A) → Outcome → Type 0 where
    stopped : AfterProvider adapter desired (checked true ∷ []) (err cancelled)
    failed :
        (e : TargetAdapterError)
        → AfterProvider adapter desired
            (checked false ∷ reconciled adapter (adapter_request request desired) (err e) ∷ [])
            (err adapter_failed)
    stopped_late :
        (o : ReconciliationOutcome)
        → AfterProvider adapter desired
            (checked false
              ∷ reconciled adapter (adapter_request request desired) (ok o)
              ∷ checked true
              ∷ [])
            (err cancelled)
    done :
        (o : ReconciliationOutcome)
        → AfterProvider adapter desired
            (checked false
              ∷ reconciled adapter (adapter_request request desired) (ok o)
              ∷ checked false
              ∷ [])
            (ok o)

  -- What may happen while the permit is held.
  pub data Holding (adapter : A) : List (Event A) → Outcome → Type 0 where
    stopped : Holding adapter (checked true ∷ []) (err cancelled)
    failed :
        (e : PermissionProviderError)
        → Holding adapter
            (checked false ∷ provided (provider_request request) (err e) ∷ [])
            (err provider_failed)
    provided_then :
        (desired : DesiredStateEnvelope) {log : List (Event A)} {r : Outcome}
        → AfterProvider adapter desired log r
        → Holding adapter (checked false ∷ provided (provider_request request) (ok desired) ∷ log) r

  -- The whole conversation, given what the router answers and whether there is a Provider.
  pub data Conversation (s : SelectedTargetSynchronizer A) : List (Event A) → Outcome → Type 0 where
    stopped : Conversation s (checked true ∷ []) (err cancelled)
    unroutable :
        (e : TargetResolutionError)
        → resolve s.router request.target ≡ err e
        → Conversation s (checked false ∷ []) (err (routing_error e))
    stopped_routed :
        (adapter : A)
        → resolve s.router request.target ≡ ok adapter
        → Conversation s (checked false ∷ checked true ∷ []) (err cancelled)
    unprovided :
        (adapter : A)
        → resolve s.router request.target ≡ ok adapter
        → s.has_provider ≡ false
        → Conversation s (checked false ∷ checked false ∷ []) (err provider_failed)
    saturated :
        (adapter : A) (e : SynchronizationCapacityError)
        → resolve s.router request.target ≡ ok adapter
        → s.has_provider ≡ true
        → Conversation s
            (checked false ∷ checked false ∷ acquired (err e) ∷ [])
            (err capacity_unavailable)
    held :
        (adapter : A) {log : List (Event A)} {r : Outcome}
        → resolve s.router request.target ≡ ok adapter
        → s.has_provider ≡ true
        → Holding adapter log r
        → Conversation s
            (checked false ∷ checked false ∷ acquired (ok tt) ∷ (log ++ released ∷ []))
            r
