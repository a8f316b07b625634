-- ===== src/Domain/Context.antt =====
-- crates/permissionsync-core/src/ports.rs: the request context and the requests of the ports.
-- The clock and the cancellation signal are read from the state of the world, and each reading may
-- advance it.
use permissionsync.Prelude.{ℕ, Bool, true, leb, if◌then◌else◌}
use permissionsync.Domain.Target.{LogicalTarget}
use permissionsync.Domain.Values.{IdentityContext, TechnicalCallerBearerToken, DesiredStateEnvelope}

pub record Signals (W : Type 0) : Type 0 where
  pub is_cancelled : W → Bool × W
  pub now : W → ℕ × W

-- The cancellation signal of a request is that of the world it runs in.
pub record SynchronizationContext : Type 0 where
  pub deadline : ℕ

pub record PermissionProviderRequest : Type 0 where
  pub identity : IdentityContext
  pub target : LogicalTarget
  pub technical_caller_bearer_token : TechnicalCallerBearerToken
  pub context : SynchronizationContext

pub record TargetAdapterRequest : Type 0 where
  pub identity : IdentityContext
  pub desired_state : DesiredStateEnvelope
  pub context : SynchronizationContext

pub data PermissionProviderError : Type 0 where
  permission_provider_error : PermissionProviderError

pub data TargetAdapterError : Type 0 where
  target_adapter_error : TargetAdapterError

pub data ReconciliationOutcome : Type 0 where
  changed unchanged : ReconciliationOutcome

-- `context.cancellation().is_cancelled() || Instant::now() >= context.deadline()`; the clock is
-- read only if the signal is not set.
unfoldable pub is_cancelled_or_expired :
    {W : Type 0} → Signals W → SynchronizationContext → W → Bool × W
is_cancelled_or_expired s context w =
    let (cancelled, w') = s.is_cancelled w in
    let (now, w'') = s.now w' in if cancelled then (true, w') else (leb context.deadline now, w'')
