-- ===== src/Inbound.antt =====
-- crates/permissionsync-inbound-http/src/lib.rs: one inbound synchronization request, from its
-- header fields and its collected body to its outcome.
pub mod Bearer
pub mod Laws
use permissionsync.Prelude.{
  ℕ, Bool, true, false, List, [], ◌∷◌, Option, none, some, ok_or, if◌then◌else◌, Result, ok, err,
  Text, text, text_eq,
}
use permissionsync.Prelude.Io.{Io, pure, throw, proceed, ◌>>=◌, ◌>>◌, lift}
use permissionsync.Prelude.Json.{Value, as_str}
use permissionsync.Prelude.Shapes.{and_then, struct_slots, slot, as_array, to_list}
use permissionsync.Domain.Target.{LogicalTarget}
use permissionsync.Domain.Values.{IdentityContext, TechnicalCallerBearerToken}
use permissionsync.Domain.Context.{
  Signals, SynchronizationContext, ReconciliationOutcome, is_cancelled_or_expired,
}
use permissionsync.Auth.Types.{
  AuthenticationError, TargetSelection, no_target, selected, AuthenticatedTechnicalCaller,
}
use permissionsync.Orchestration.{
  SelectedTargetSynchronizationRequest, SelectedTargetSynchronizationError,
}
use permissionsync.Inbound.Bearer.{HeaderField, extract_bearer}

pub data InboundBody : Type 0 where
  collected : Text → InboundBody
  bound_exceeded : InboundBody

pub data HttpOutcome : Type 0 where
  changed targetless_noop unchanged invalid_request unknown_target authentication_rejected :
      HttpOutcome
  authorization_forbidden verifier_unavailable cancelled_or_expired target_unavailable : HttpOutcome
  capacity_unavailable provider_failed adapter_failed : HttpOutcome

unfoldable pub status_code : HttpOutcome → ℕ
status_code HttpOutcome.changed = 200
status_code HttpOutcome.targetless_noop = 204
status_code HttpOutcome.unchanged = 204
status_code HttpOutcome.invalid_request = 400
status_code HttpOutcome.unknown_target = 400
status_code HttpOutcome.authentication_rejected = 401
status_code HttpOutcome.authorization_forbidden = 403
status_code HttpOutcome.verifier_unavailable = 500
status_code HttpOutcome.cancelled_or_expired = 500
status_code HttpOutcome.target_unavailable = 500
status_code HttpOutcome.capacity_unavailable = 500
status_code HttpOutcome.provider_failed = 500
status_code HttpOutcome.adapter_failed = 500

-- The two components of the handler, the context's signals, and the parser of `serde_json`.
pub record InboundHttpHandler (N W : Type 0) : Type 0 where
  pub signals : Signals W
  pub authenticate :
      Option Text → SynchronizationContext → Io W AuthenticationError AuthenticatedTechnicalCaller
  pub synchronize :
      SelectedTargetSynchronizationRequest
      → Io W SelectedTargetSynchronizationError ReconciliationOutcome
  pub document : Text → Option (Value N)

pub record LoginBody : Type 0 where
  pub event_type : Text
  pub username : Text
  pub groups : List Text

module _ {N : Type 0} where
  unfoldable pub texts : List (Value N) → Option (List Text)
  texts [] = some []
  texts (v ∷ vs) =
      let rest = texts vs in and_then (λ s. and_then (λ ss. some (s ∷ ss)) rest) (as_str v)

  unfoldable pub login_body : Value N → Option LoginBody
  unfolding texts to_list
  login_body v =
      and_then
        (λ slots.
          and_then
            (λ event_type.
              and_then
                (λ username.
                  and_then
                    (λ groups.
                      some
                        (record { event_type = event_type; username = username; groups = groups }))
                    (and_then (λ items. texts (to_list items)) (and_then as_array (slot 2 slots))))
                (and_then as_str (slot 1 slots)))
            (and_then as_str (slot 0 slots)))
        (struct_slots true (text "event_type" ∷ text "username" ∷ text "groups" ∷ []) v)

unfoldable pub authentication_failure_outcome : AuthenticationError → HttpOutcome
authentication_failure_outcome AuthenticationError.rejected = HttpOutcome.authentication_rejected
authentication_failure_outcome AuthenticationError.forbidden = HttpOutcome.authorization_forbidden
authentication_failure_outcome AuthenticationError.verifier_unavailable =
    HttpOutcome.verifier_unavailable
authentication_failure_outcome AuthenticationError.cancelled = HttpOutcome.cancelled_or_expired

unfoldable pub reconciled : ReconciliationOutcome → HttpOutcome
reconciled ReconciliationOutcome.changed = HttpOutcome.changed
reconciled ReconciliationOutcome.unchanged = HttpOutcome.unchanged

unfoldable pub synchronization_failure_outcome : SelectedTargetSynchronizationError → HttpOutcome
synchronization_failure_outcome SelectedTargetSynchronizationError.unknown_target =
    HttpOutcome.unknown_target
synchronization_failure_outcome SelectedTargetSynchronizationError.cancelled =
    HttpOutcome.cancelled_or_expired
synchronization_failure_outcome SelectedTargetSynchronizationError.target_unavailable =
    HttpOutcome.target_unavailable
synchronization_failure_outcome SelectedTargetSynchronizationError.capacity_unavailable =
    HttpOutcome.capacity_unavailable
synchronization_failure_outcome SelectedTargetSynchronizationError.provider_failed =
    HttpOutcome.provider_failed
synchronization_failure_outcome SelectedTargetSynchronizationError.adapter_failed =
    HttpOutcome.adapter_failed

-- The last `match` of `handle_authenticated`.
unfoldable pub synchronized :
    {W : Type 0}
    → Result SelectedTargetSynchronizationError ReconciliationOutcome × W
    → Result HttpOutcome HttpOutcome × W
unfolding reconciled synchronization_failure_outcome
synchronized (ok outcome, w) = (ok (reconciled outcome), w)
synchronized (err e, w) = (ok (synchronization_failure_outcome e), w)

-- An early return is an outcome too.
abbrev pub settled : {W : Type 0} → Result HttpOutcome HttpOutcome × W → HttpOutcome × W
settled (ok outcome, w) = (outcome, w)
settled (err outcome, w) = (outcome, w)

module _ {N W : Type 0} (handler : InboundHttpHandler N W) where
  -- `Some(Ok(body)) if body.event_type == "LOGIN"`
  unfoldable pub parsed_login : InboundBody → Option LoginBody
  unfolding login_body
  parsed_login bound_exceeded = none
  parsed_login (collected bytes) = and_then login_body (handler.document bytes)

  unfoldable pub validated : Option LoginBody → Result HttpOutcome LoginBody
  validated none = err HttpOutcome.invalid_request
  validated (some body) =
      if text_eq body.event_type (text "LOGIN") then ok body else err HttpOutcome.invalid_request

  -- `if context_unavailable(&context) { return HttpOutcome::CancelledOrExpired; }`
  unfoldable pub available : SynchronizationContext → Io W HttpOutcome (Unit {0})
  unfolding is_cancelled_or_expired
  available context w =
      let (stop, w') = is_cancelled_or_expired handler.signals context w in
      if stop then (err HttpOutcome.cancelled_or_expired, w') else (ok tt, w')

  abbrev pub selected_request :
      TechnicalCallerBearerToken
      → LogicalTarget
      → LoginBody
      → SynchronizationContext
      → SelectedTargetSynchronizationRequest
  selected_request bearer target body context = record {
    identity = record { username = body.username; groups = body.groups };
    target = target;
    technical_caller_bearer_token = bearer;
    context = context;
  }

  unfoldable pub dispatch :
      TechnicalCallerBearerToken
      → TargetSelection
      → SynchronizationContext
      → LoginBody
      → Io W HttpOutcome HttpOutcome
  unfolding available synchronized
  dispatch bearer no_target context body = do available context; pure HttpOutcome.targetless_noop
  dispatch bearer (selected target) context body =
      λ w. synchronized (handler.synchronize (selected_request bearer target body context) w)

  abbrev pub with_body :
      TechnicalCallerBearerToken
      → TargetSelection
      → InboundBody
      → SynchronizationContext
      → Io W HttpOutcome HttpOutcome
  with_body bearer selection body context =
      lift (validated (parsed_login body)) >>= dispatch bearer selection context

  unfoldable pub handle_authenticated :
      TechnicalCallerBearerToken
      → TargetSelection
      → InboundBody
      → SynchronizationContext
      → Io W HttpOutcome HttpOutcome
  unfolding available parsed_login validated dispatch
  handle_authenticated bearer selection body context = do
    available context
    with_body bearer selection body context

  unfoldable pub continue_after_authentication :
      InboundBody
      → SynchronizationContext
      → Result AuthenticationError AuthenticatedTechnicalCaller × W
      → Result HttpOutcome HttpOutcome × W
  unfolding available handle_authenticated authentication_failure_outcome
  continue_after_authentication body context (ok caller, w) =
      (available context
          >> handle_authenticated caller.bearer_token caller.target_selection body context)
        w
  continue_after_authentication body context (err e, w) =
      (available context >> throw (authentication_failure_outcome e)) w

  abbrev pub authenticated :
      List HeaderField → InboundBody → SynchronizationContext → Io W HttpOutcome HttpOutcome
  authenticated headers body context w =
      continue_after_authentication body context
        (handler.authenticate (extract_bearer headers) context w)

  unfoldable pub handle :
      List HeaderField → InboundBody → SynchronizationContext → W → HttpOutcome × W
  unfolding available extract_bearer continue_after_authentication
  handle headers body context w =
      settled ((available context >> (available context >> authenticated headers body context)) w)
