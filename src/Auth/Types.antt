-- ===== src/Auth/Types.antt =====
-- crates/permissionsync-auth/src/{types,error,context,config}.rs: the values of one attempt.
use permissionsync.Prelude.{Text, if◌then◌else◌, ok, err}
use permissionsync.Prelude.Io.{Io}
use permissionsync.Domain.Target.{LogicalTarget}
use permissionsync.Domain.Values.{TechnicalCallerBearerToken}
use permissionsync.Domain.Context.{Signals, SynchronizationContext, is_cancelled_or_expired}

pub data AuthenticationError : Type 0 where
  rejected forbidden verifier_unavailable cancelled : AuthenticationError

pub data TargetSelection : Type 0 where
  no_target : TargetSelection
  selected : LogicalTarget → TargetSelection

pub record TechnicalCallerClientId : Type 0 where
  pub value : Text

pub record AuthenticatedTechnicalCaller : Type 0 where
  pub client_id : TechnicalCallerClientId
  pub bearer_token : TechnicalCallerBearerToken
  pub target_selection : TargetSelection

-- `check_context` of context.rs.
unfoldable pub check_context :
    {W : Type 0} → Signals W → SynchronizationContext → Io W AuthenticationError (Unit {0})
unfolding is_cancelled_or_expired
check_context s context w =
    let (stop, w') = is_cancelled_or_expired s context w in
    if stop then (err cancelled, w') else (ok tt, w')
