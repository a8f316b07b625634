-- ===== src/Provider/Client.antt =====
-- crates/permissionsync-provider-generic-rest/src/client.rs: one attempt to resolve the desired state.
-- The address, the connection and the timer are operations of the environment.
pub mod Laws
use permissionsync.Prelude.{
  ℕ, ◌+◌, Bool, true, false, not, List, [], ◌∷◌, ◌++◌, Option, none, some, ok_or, leb, ltb, ◌==◌,
  if◌then◌else◌, length, min, Result, ok, err, Text, text,
}
use permissionsync.Prelude.Io.{Io, pure, throw, proceed, ◌>>=◌, ◌>>◌, lift, guard, map_err, relabel}
use permissionsync.Prelude.Json.{Value}
use permissionsync.Prelude.Decimal.{checked_add}
use permissionsync.Domain.Values.{DesiredStateEnvelope, IdentityContext}
use permissionsync.Domain.Context.{
  Signals, SynchronizationContext, PermissionProviderRequest, PermissionProviderError,
  permission_provider_error,
}
use permissionsync.Provider.Wire.{
  ProviderFailure, runtime_unavailable, cancelled, deadline_exceeded, invalid_authorization,
  request_construction, request_serialization, transport, unexpected_status, response_body,
  response_too_large, Mime, HeaderMap, validate_success_headers, parse_success_envelope,
}

abbrev pub response_body_limit_bytes : ℕ
response_body_limit_bytes = 1048576

-- The request of one attempt: always a `POST` to the endpoint, with the fixed fields.
pub record OutboundRequest : Type 0 where
  pub authorization : Text
  pub body : Text

pub data Frame : Type 0 where
  data_ : Text → Frame
  trailers : Frame
  broken : Frame

pub record Response : Type 0 where
  pub status : ℕ
  pub headers : HeaderMap
  -- The frames that arrive, in their order.
  pub frames : List Frame

-- `A` is an address and `C` a connection.
pub record Environment (A C W : Type 0) : Type 0 where
  pub signals : Signals W
  -- `Instant::checked_add`
  pub later : ℕ → ℕ → Option ℕ
  -- Whether a runtime is there.
  pub has_runtime : W → Bool
  -- `timeout_at`: no value if the deadline comes first.
  pub timeout_at :
      ℕ
      → Io W ProviderFailure DesiredStateEnvelope
      → W
      → Option (Result ProviderFailure DesiredStateEnvelope) × W
  -- `serde_json::to_vec` of the user name and the groups.
  pub serialize : IdentityContext → Option Text
  pub is_header_value : Text → Bool
  -- Whether the authority of the endpoint and the request are accepted.
  pub can_build : OutboundRequest → Bool
  pub resolve_one_address : ℕ → Io W ProviderFailure A
  pub connect : A → W → Option C × W
  pub tls : C → W → Option C × W
  pub handshake : C → W → Option C × W
  pub send_request : C → OutboundRequest → W → Option Response × W
  pub parse_mime : Text → Option Mime
  pub to_str : Text → Option Text
  pub raw_document : Text → Option (Value Text)
  pub read_u64 : Text → Option ℕ
  pub is_json : Text → Bool

abbrev pub sense : {W A : Type 0} → (W → A × W) → Io W ProviderFailure A
sense reading w = let (a, w') = reading w in (ok a, w')

-- An awaited call whose error is replaced.
abbrev pub or_transport : {W A : Type 0} → (W → Option A × W) → Io W ProviderFailure A
or_transport call w = let (a, w') = call w in (ok_or transport a, w')

abbrev pub unwrap_or : ℕ → Option ℕ → ℕ
unwrap_or n none = n
unwrap_or n (some m) = m

unfoldable pub accumulate_within_limit : ℕ → ℕ → ℕ → Result ProviderFailure ℕ
unfolding checked_add
accumulate_within_limit total chunk_len limit = elim (checked_add total chunk_len) [
  | none ↦ err response_too_large
  | some next_total ↦ if ltb limit next_total then err response_too_large else ok next_total
]

module _ {A C W : Type 0} (env : Environment A C W) where
  unfoldable pub effective_deadline : SynchronizationContext → ℕ → Io W ProviderFailure ℕ
  effective_deadline context operation_timeout = do
    stopped ← sense env.signals.is_cancelled
    guard (not stopped) cancelled
    now ← sense env.signals.now
    guard (not (leb context.deadline now)) deadline_exceeded
    pure (min context.deadline (unwrap_or context.deadline (env.later now operation_timeout)))

  unfoldable pub check_context : ℕ → Io W ProviderFailure (Unit {0})
  check_context deadline = do
    stopped ← sense env.signals.is_cancelled
    guard (not stopped) cancelled
    now ← sense env.signals.now
    guard (not (leb deadline now)) deadline_exceeded

  -- One frame, over the bytes so far.
  unfoldable pub read_frame : ℕ → Text → Frame → Result ProviderFailure Text
  unfolding accumulate_within_limit
  read_frame limit bytes (data_ chunk) =
      elim (accumulate_within_limit (length bytes) (length chunk) limit) [
        | err e ↦ err e
        | ok total ↦ ok (bytes ++ chunk)
      ]
  read_frame limit bytes trailers = ok bytes
  read_frame limit bytes broken = err response_body

  unfoldable pub read_body : ℕ → ℕ → Text → List Frame → Io W ProviderFailure Text
  unfolding check_context read_frame
  read_body deadline limit bytes [] = do check_context deadline; pure bytes
  read_body deadline limit bytes (frame ∷ frames) = do
    check_context deadline
    lift (read_frame limit bytes frame) >>= λ more. read_body deadline limit more frames

  unfoldable pub authorization_header : Text → Result ProviderFailure Text
  authorization_header token =
      if env.is_header_value (text "Bearer " ++ token)
      then ok (text "Bearer " ++ token)
      else err invalid_authorization

  unfoldable pub build_request : Text → Text → Result ProviderFailure OutboundRequest
  build_request body authorization =
      let request : OutboundRequest = record { authorization = authorization; body = body } in
      if env.can_build request then ok request else err request_construction

  abbrev pub parsed : ℕ → Text → Io W ProviderFailure DesiredStateEnvelope
  parsed deadline body = do
    check_context deadline
    envelope ← lift (parse_success_envelope env.raw_document env.read_u64 env.is_json body)
    check_context deadline
    pure envelope

  abbrev pub received : ℕ → Response → Io W ProviderFailure DesiredStateEnvelope
  received deadline response = do
    check_context deadline
    guard (response.status == 200) unexpected_status
    declared_length ← lift (
        validate_success_headers env.parse_mime env.to_str response.headers
          response_body_limit_bytes)
    read_body deadline response_body_limit_bytes [] response.frames >>= parsed deadline

  unfoldable pub send_and_read_response :
      C → OutboundRequest → ℕ → Io W ProviderFailure DesiredStateEnvelope
  unfolding check_context validate_success_headers read_body parse_success_envelope
  send_and_read_response sender outbound_request deadline = do
    check_context deadline
    or_transport (env.send_request sender outbound_request) >>= received deadline

  -- The connection: an address, a stream, its TLS layer and its HTTP layer.
  unfoldable pub opened : ℕ → Io W ProviderFailure C
  opened deadline = do
    check_context deadline
    address ← env.resolve_one_address deadline
    check_context deadline
    tcp_stream ← or_transport (env.connect address)
    check_context deadline
    tls_stream ← or_transport (env.tls tcp_stream)
    check_context deadline
    or_transport (env.handshake tls_stream)

  unfoldable pub prepared : PermissionProviderRequest → Result ProviderFailure OutboundRequest
  unfolding authorization_header build_request
  prepared request = elim (env.serialize request.identity) [
    | none ↦ err request_serialization
    | some body ↦ elim (authorization_header request.technical_caller_bearer_token.value) [
      | err e ↦ err e
      | ok authorization ↦ build_request body authorization
    ]
  ]

  abbrev pub exchanged : OutboundRequest → ℕ → C → Io W ProviderFailure DesiredStateEnvelope
  exchanged outbound_request deadline sender =
      send_and_read_response sender outbound_request deadline

  abbrev pub prepared_with : ℕ → OutboundRequest → Io W ProviderFailure DesiredStateEnvelope
  prepared_with deadline outbound_request = opened deadline >>= exchanged outbound_request deadline

  unfoldable pub resolve_within_deadline :
      PermissionProviderRequest → ℕ → Io W ProviderFailure DesiredStateEnvelope
  unfolding prepared opened send_and_read_response
  resolve_within_deadline request deadline = do
    check_context deadline
    lift (prepared request) >>= prepared_with deadline

  -- An elapsed timer is a deadline that was exceeded.
  abbrev pub in_time :
      Option (Result ProviderFailure DesiredStateEnvelope) × W
      → Result ProviderFailure DesiredStateEnvelope × W
  in_time (none, w) = (err deadline_exceeded, w)
  in_time (some r, w) = (r, w)

  abbrev pub timed : PermissionProviderRequest → ℕ → Io W ProviderFailure DesiredStateEnvelope
  timed request deadline w =
      if env.has_runtime w
      then in_time (env.timeout_at deadline (resolve_within_deadline request deadline) w)
      else (err runtime_unavailable, w)

  unfoldable pub resolve : ℕ → PermissionProviderRequest → Io W ProviderFailure DesiredStateEnvelope
  unfolding effective_deadline resolve_within_deadline
  resolve operation_timeout request =
      effective_deadline request.context operation_timeout >>= timed request

  -- The port of the synchronizer: every failure becomes the opaque error.
  unfoldable pub provider_resolve :
      ℕ → PermissionProviderRequest → Io W PermissionProviderError DesiredStateEnvelope
  unfolding resolve
  provider_resolve operation_timeout request =
      map_err (λ e. permission_provider_error) (resolve operation_timeout request)
