-- ===== src/Inbound/Laws.antt =====
-- crates/permissionsync-inbound-http/src/lib.rs: what stands behind a successful outcome.
use permissionsync.Prelude.{
  ◌≡◌, ◌<◌, refl, ap, subst, ◌⊎◌, inl, inr, Bool, true, false, List, Option, none, some,
  if◌then◌else◌, Result, ok, err, Bool-cases, text, text_eq, text_eq_iff, arith,
}
use permissionsync.Prelude.Io.{Io, pure, throw, proceed, ◌>>=◌, ◌>>◌, lift}
use permissionsync.Domain.Target.{LogicalTarget}
use permissionsync.Domain.Context.{
  SynchronizationContext, ReconciliationOutcome, is_cancelled_or_expired,
}
use permissionsync.Auth.Types.{
  AuthenticationError, TargetSelection, no_target, selected, AuthenticatedTechnicalCaller,
}
use permissionsync.Orchestration.{SelectedTargetSynchronizationError}
use permissionsync.Inbound.Bearer.{HeaderField, extract_bearer}
use permissionsync.Inbound.{
  InboundBody, HttpOutcome, status_code, InboundHttpHandler, LoginBody,
  authentication_failure_outcome, reconciled, synchronization_failure_outcome, synchronized,
  settled, parsed_login, validated, available, selected_request, dispatch, with_body,
  handle_authenticated, continue_after_authentication, authenticated, handle,
}

-- An early return never has a status of success.
failure_status :
    (e : AuthenticationError) → status_code (authentication_failure_outcome e) < 300 → ⊥
unfolding status_code authentication_failure_outcome
failure_status AuthenticationError.rejected h = omega arith
failure_status AuthenticationError.forbidden h = omega arith
failure_status AuthenticationError.verifier_unavailable h = omega arith
failure_status AuthenticationError.cancelled h = omega arith

synchronization_status :
    (e : SelectedTargetSynchronizationError)
    → status_code (synchronization_failure_outcome e) < 300
    → ⊥
unfolding status_code synchronization_failure_outcome
synchronization_status SelectedTargetSynchronizationError.unknown_target h = omega arith
synchronization_status SelectedTargetSynchronizationError.cancelled h = omega arith
synchronization_status SelectedTargetSynchronizationError.target_unavailable h = omega arith
synchronization_status SelectedTargetSynchronizationError.capacity_unavailable h = omega arith
synchronization_status SelectedTargetSynchronizationError.provider_failed h = omega arith
synchronization_status SelectedTargetSynchronizationError.adapter_failed h = omega arith

module _ {N W : Type 0} (handler : InboundHttpHandler N W) where
  -- What a selection was answered with: nothing to do, or a synchronization of that target for the
  -- identity of the body, with the caller's own token.
  abbrev pub Concludes :
      AuthenticatedTechnicalCaller → LoginBody → SynchronizationContext → HttpOutcome → Type 0
  Concludes caller body context outcome =
      ((caller.target_selection ≡ no_target) × (outcome ≡ HttpOutcome.targetless_noop))
      ⊎ ((target : LogicalTarget) × (result : ReconciliationOutcome) × (w : W) × (w' : W)
          × (caller.target_selection ≡ selected target)
          × (handler.synchronize (selected_request handler caller.bearer_token target body context)
                w
              ≡ (ok result, w'))
          × (outcome ≡ reconciled result))

  -- A caller that was authenticated with the bearer of the header fields, and a body with a login.
  pub record IsAccepted (headers : List HeaderField) (body : InboundBody)
      (context : SynchronizationContext) (outcome : HttpOutcome) : Type 0 where
    pub caller : AuthenticatedTechnicalCaller
    pub before : W
    pub after : W
    pub authentic :
        handler.authenticate (extract_bearer headers) context before ≡ (ok caller, after)
    pub login : LoginBody
    pub parsed : parsed_login handler body ≡ some login
    pub event : login.event_type ≡ text "LOGIN"
    pub concludes : Concludes caller login context outcome

  module _ (headers : List HeaderField) (body : InboundBody)
      (context : SynchronizationContext) where
    -- A status of success stands for an accepted request, and no early return has one.
    abbrev Answers : Result HttpOutcome HttpOutcome × W → Type 0
    Answers (ok outcome, w) = status_code outcome < 300 → IsAccepted headers body context outcome
    Answers (err outcome, w) = status_code outcome < 300 → ⊥

    abbrev stopping : Bool × W → Result HttpOutcome (Unit {0}) × W
    stopping (stop, w) = if stop then (err HttpOutcome.cancelled_or_expired, w) else (ok tt, w)

    after_check :
        (k : Io W HttpOutcome HttpOutcome) (w : W)
        → ((w1 : W) → Answers (k w1))
        → Answers ((available handler context >> k) w)
    unfolding available status_code
    after_check k w h = go (is_cancelled_or_expired handler.signals context w)
      where
        go : (r : Bool × W) → Answers (proceed (λ passed. k) (stopping r))
        go (true, w1) = λ success. omega arith
        go (false, w1) = h w1

    module _ (caller : AuthenticatedTechnicalCaller) (before after : W)
        (authentic : handler.authenticate (extract_bearer headers) context before
          ≡ (ok caller, after))
        (login : LoginBody) (parsed : parsed_login handler body ≡ some login)
        (event : login.event_type ≡ text "LOGIN") where
      accepted :
          (outcome : HttpOutcome)
          → Concludes caller login context outcome
          → IsAccepted headers body context outcome
      accepted outcome concludes = record {
        caller = caller;
        before = before;
        after = after;
        authentic = authentic;
        login = login;
        parsed = parsed;
        event = event;
        concludes = concludes;
      }

      synchronized-Answers :
          (target : LogicalTarget) (w : W)
          → caller.target_selection ≡ selected target
          → (r : Result SelectedTargetSynchronizationError ReconciliationOutcome × W)
          → handler.synchronize
              (selected_request handler caller.bearer_token target login context)
              w
            ≡ r
          → Answers (synchronized r)
      unfolding synchronized
      synchronized-Answers target w same (ok result, w') e =
          λ success. accepted (reconciled result) (inr (target, result, w, w', same, e, refl))
      synchronized-Answers target w same (err e, w') h =
          λ success. absurd (synchronization_status e success)

      dispatch-Answers :
          (selection : TargetSelection) (w : W)
          → caller.target_selection ≡ selection
          → Answers (dispatch handler caller.bearer_token selection context login w)
      unfolding dispatch
      dispatch-Answers no_target w same =
          after_check (pure HttpOutcome.targetless_noop) w
            (λ w1 success. accepted HttpOutcome.targetless_noop (inl (same, refl)))
      dispatch-Answers (selected target) w same =
          synchronized-Answers target w same
            (handler.synchronize (selected_request handler caller.bearer_token target login context)
              w)
            refl

    module _ (caller : AuthenticatedTechnicalCaller) (before after : W)
        (authentic : handler.authenticate (extract_bearer headers) context before
          ≡ (ok caller, after)) where
      with_body-Answers :
          (login : Option LoginBody) (w : W)
          → parsed_login handler body ≡ login
          → Answers (
              (lift (validated handler login)
                  >>= dispatch handler caller.bearer_token caller.target_selection context)
                w)
      unfolding validated status_code
      with_body-Answers none w e = λ success. omega arith
      with_body-Answers (some login) w e =
          elim (Bool-cases (text_eq login.event_type (text "LOGIN"))) [
            | inl good ↦ rw good (
                dispatch-Answers caller before after authentic login e
                  ((text_eq_iff login.event_type (text "LOGIN")).0 good) caller.target_selection w
                  refl)
            | inr bad ↦ rw bad (λ success. omega arith)
          ]

    continue-Answers :
        (before : W) (r : Result AuthenticationError AuthenticatedTechnicalCaller × W)
        → handler.authenticate (extract_bearer headers) context before ≡ r
        → Answers (continue_after_authentication handler body context r)
    unfolding continue_after_authentication handle_authenticated
    continue-Answers before (ok caller, after) e =
        after_check
          (handle_authenticated handler caller.bearer_token caller.target_selection body context)
          after
          (λ w1.
            after_check (with_body handler caller.bearer_token caller.target_selection body context)
              w1
              (λ w2. with_body-Answers caller before after e (parsed_login handler body) w2 refl))
    continue-Answers before (err e, after) h =
        after_check (throw (authentication_failure_outcome e)) after
          (λ w1 success. failure_status e success)

    settled-IsAccepted :
        (r : Result HttpOutcome HttpOutcome × W) (outcome : HttpOutcome) (w' : W)
        → Answers r
        → settled r ≡ (outcome, w')
        → status_code outcome < 300
        → IsAccepted headers body context outcome
    settled-IsAccepted (ok result, w) outcome w' h e success =
        subst (λ o. status_code o < 300 → IsAccepted headers body context o) (ap (λ x. x.0) e) h
          success
    settled-IsAccepted (err result, w) outcome w' h e success =
        absurd (subst (λ o. status_code o < 300 → ⊥) (ap (λ x. x.0) e) h success)

    -- A request is answered with a status of success only if its caller was authenticated with the
    -- bearer of its header fields and its body is a login; without a selected target the outcome is
    -- the one without work, and with one it is that of the synchronization of that target, for the
    -- identity of the body and with the caller's own token.
    pub handle-IsAccepted :
        (w w' : W) (outcome : HttpOutcome)
        → handle handler headers body context w ≡ (outcome, w')
        → status_code outcome < 300
        → IsAccepted headers body context outcome
    unfolding handle
    handle-IsAccepted w w' outcome h success =
        settled-IsAccepted
          ((available handler context
              >> (available handler context >> authenticated handler headers body context))
            w)
          outcome w'
          (after_check (available handler context >> authenticated handler headers body context) w
            (λ w1. after_check (authenticated handler headers body context) w1 (λ w2.
              continue-Answers w2 (handler.authenticate (extract_bearer headers) context w2) refl)))
          h success
