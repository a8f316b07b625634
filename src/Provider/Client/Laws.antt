-- ===== src/Provider/Client/Laws.antt =====
-- crates/permissionsync-provider-generic-rest/src/client.rs: what a resolved envelope was read from.
use mathlib.Core.List.{append_assoc, append-nil}
use permissionsync.Prelude.{
  ℕ, ◌+◌, ◌≤◌, ◌≡◌, refl, sym, ap, subst, ◌∙◌, Bool, true, false, List, [], ◌∷◌, ◌++◌, Option, none,
  some, ◌==◌, ==_iff, if◌then◌else◌, length, length-append, Result, ok, err, Text, arith,
}
use permissionsync.Prelude.Io.{Io, pure, ◌>>=◌, ◌>>◌, lift, guard, proceed-eq-ok}
use permissionsync.Prelude.Decimal.{checked_add}
use permissionsync.Domain.Values.{DesiredStateEnvelope}
use permissionsync.Domain.Context.{PermissionProviderRequest}
use permissionsync.Provider.Wire.{
  ProviderFailure, unexpected_status, runtime_unavailable, validate_success_headers,
  parse_success_envelope,
}
use permissionsync.Provider.Client.{
  response_body_limit_bytes, OutboundRequest, Frame, data_, trailers, broken, Response, Environment,
  or_transport, accumulate_within_limit, effective_deadline, check_context, read_frame, read_body,
  parsed, received, send_and_read_response, opened, prepared, exchanged, prepared_with,
  resolve_within_deadline, in_time, timed, resolve,
}

-- The data of the frames, in order.
abbrev pub payload : List Frame → Text
payload [] = []
payload (data_ chunk ∷ frames) = chunk ++ payload frames
payload (trailers ∷ frames) = payload frames
payload (broken ∷ frames) = payload frames

module _ {A C W : Type 0} (env : Environment A C W) where
  -- What a frame adds, within the limit.
  read_frame-shown :
      (limit : ℕ) (bytes more : Text) (frame : Frame)
      → read_frame env limit bytes frame ≡ ok more
      → (more ≡ bytes ++ payload (frame ∷ [])) × (length bytes ≤ limit → length more ≤ limit)
  unfolding read_frame accumulate_within_limit checked_add
  read_frame-shown limit bytes more (data_ chunk) h =
      let shown : more ≡ bytes ++ chunk = ground arith in
      let fits : length bytes + length chunk ≤ limit = ground arith in
      (
        shown ∙ ap (◌++◌ bytes) (sym (append-nil chunk)),
        λ small.
            subst (λ t. length t ≤ limit) (sym shown) (omega (arith, length-append bytes chunk)),
      )
  read_frame-shown limit bytes more trailers h =
      let same : bytes ≡ more = ground arith in
      (sym same ∙ sym (append-nil bytes), λ small. subst (λ t. length t ≤ limit) same small)
  read_frame-shown limit bytes more broken h = ground arith

  payload-first :
      (frame : Frame) (frames : List Frame)
      → payload (frame ∷ []) ++ payload frames ≡ payload (frame ∷ frames)
  payload-first (data_ chunk) frames = append_assoc chunk [] (payload frames)
  payload-first trailers frames = refl
  payload-first broken frames = refl

  -- A body that is read is the data of its frames, within the limit.
  pub read_body-payload :
      (deadline limit : ℕ) (bytes body : Text) (frames : List Frame) (w w' : W)
      → read_body env deadline limit bytes frames w ≡ (ok body, w')
      → (body ≡ bytes ++ payload frames) × (length bytes ≤ limit → length body ≤ limit)
  unfolding read_body
  read_body-payload deadline limit bytes body [] w w' h =
      let (passed, w1, e, rest) =
        proceed-eq-ok (λ passed. pure {W = W} {E = ProviderFailure} bytes)
          (check_context env deadline w) h in
      let same : bytes ≡ body = ground (arith, rest) in
      (sym same ∙ sym (append-nil bytes), λ small. subst (λ t. length t ≤ limit) same small)
  read_body-payload deadline limit bytes body (frame ∷ frames) w w' h =
      let (passed, w1, e1, h1) =
        proceed-eq-ok
          (λ passed. lift (read_frame env limit bytes frame) >>= λ more.
            read_body env deadline limit more frames)
          (check_context env deadline w) h in
      let (more, w2, e2, h2) =
        proceed-eq-ok (λ more. read_body env deadline limit more frames)
          (lift (read_frame env limit bytes frame) w1) h1 in
      let (first, small) = read_frame-shown limit bytes more frame (ap (λ r. r.0) e2) in
      let (rest, bounded) = read_body-payload deadline limit more body frames w2 w' h2 in
      (
        rest
            ∙ ap (λ t. t ++ payload frames) first
            ∙ append_assoc bytes (payload (frame ∷ [])) (payload frames)
            ∙ ap (λ t. bytes ++ t) (payload-first frame frames),
        λ fits. bounded (small fits),
      )

  -- A response of status 200 with fitting metadata, whose body, within the limit, is the envelope.
  pub record IsTrusted (request : PermissionProviderRequest) (envelope : DesiredStateEnvelope)
      : Type 0 where
    pub sent : OutboundRequest
    pub prepared_as : prepared env request ≡ ok sent
    pub sender : C
    pub before : W
    pub after : W
    pub response : Response
    pub answered : env.send_request sender sent before ≡ (some response, after)
    pub status : response.status ≡ 200
    pub length_ : Option ℕ
    pub metadata :
        validate_success_headers env.parse_mime env.to_str response.headers
          response_body_limit_bytes
        ≡ ok length_
    pub small : length (payload response.frames) ≤ response_body_limit_bytes
    pub read :
        parse_success_envelope env.raw_document env.read_u64 env.is_json (payload response.frames)
        ≡ ok envelope

  or_transport-some :
      {B : Type 0} (call : W → Option B × W) (b : B) (w w' : W)
      → or_transport call w ≡ (ok b, w')
      → call w ≡ (some b, w')
  or_transport-some {B} call b w w' h = shown (call w) h
    where
      shown : (r : Option B × W) → or_transport (λ u. r) w ≡ (ok b, w') → r ≡ (some b, w')
      shown (none, u) e = cc
      shown (some x, u) e = cc

  parsed-read :
      (deadline : ℕ) (body : Text) (envelope : DesiredStateEnvelope) (w w' : W)
      → parsed env deadline body w ≡ (ok envelope, w')
      → parse_success_envelope env.raw_document env.read_u64 env.is_json body ≡ ok envelope
  parsed-read deadline body envelope w w' h =
      let result = parse_success_envelope env.raw_document env.read_u64 env.is_json body in
      let closing : DesiredStateEnvelope → Io W ProviderFailure DesiredStateEnvelope =
        λ found. check_context env deadline >> pure found in
      let (p1, w1, e1, h1) =
        proceed-eq-ok (λ p. lift result >>= closing) (check_context env deadline w) h in
      let (found, w2, e2, h2) = proceed-eq-ok closing (lift result w1) h1 in
      let (p3, w3, e3, h3) =
        proceed-eq-ok (λ p. pure {W = W} {E = ProviderFailure} found)
          (check_context env deadline w2) h2 in
      let same : found ≡ envelope = ground (arith, h3) in ap (λ r. r.0) e2 ∙ ap (λ x. ok x) same

  timed-some :
      (deadline : ℕ) (request : PermissionProviderRequest) (envelope : DesiredStateEnvelope)
      (w w' : W)
      → timed env request deadline w ≡ (ok envelope, w')
      → env.timeout_at deadline (resolve_within_deadline env request deadline) w
        ≡ (some (ok envelope), w')
  timed-some deadline request envelope w w' h =
      shown (env.has_runtime w)
        (env.timeout_at deadline (resolve_within_deadline env request deadline) w) h
    where
      shown :
          (b : Bool) (r : Option (Result ProviderFailure DesiredStateEnvelope) × W)
          → (if b then in_time env r else (err runtime_unavailable, w)) ≡ (ok envelope, w')
          → r ≡ (some (ok envelope), w')
      shown false r e = cc
      shown true (none, u) e = cc
      shown true (some x, u) e = cc

  sent-IsTrusted :
      (request : PermissionProviderRequest) (envelope : DesiredStateEnvelope)
      (sent : OutboundRequest) (sender : C) (deadline : ℕ) (w w' : W)
      → prepared env request ≡ ok sent
      → send_and_read_response env sender sent deadline w ≡ (ok envelope, w')
      → IsTrusted request envelope
  unfolding send_and_read_response
  sent-IsTrusted request envelope sent sender deadline w w' made h =
      let (p1, w1, e1, h1) =
        proceed-eq-ok (λ p. or_transport (env.send_request sender sent) >>= received env deadline)
          (check_context env deadline w) h in
      let (response, w2, e2, h2) =
        proceed-eq-ok (received env deadline) (or_transport (env.send_request sender sent) w1) h1 in
      let metadata =
        validate_success_headers env.parse_mime env.to_str response.headers
          response_body_limit_bytes in
      let reading : Io W ProviderFailure DesiredStateEnvelope =
        read_body env deadline response_body_limit_bytes [] response.frames
        >>= parsed env deadline in
      let (p3, w3, e3, h3) =
        proceed-eq-ok
          (λ p.
            guard (response.status == 200) unexpected_status >> (lift metadata >>= λ n. reading))
          (check_context env deadline w2) h2 in
      let (p4, w4, e4, h4) =
        proceed-eq-ok (λ p. lift metadata >>= λ n. reading)
          (guard {W = W} (response.status == 200) unexpected_status w3) h3 in
      let (n, w5, e5, h5) = proceed-eq-ok (λ n. reading) (lift metadata w4) h4 in
      let (body, w6, e6, h6) =
        proceed-eq-ok (parsed env deadline)
          (read_body env deadline response_body_limit_bytes [] response.frames w5) h5 in
      let (whole, bounded) =
        read_body-payload deadline response_body_limit_bytes [] body response.frames w5 w6 e6 in
      record {
        sent = sent;
        prepared_as = made;
        sender = sender;
        before = w1;
        after = w2;
        response = response;
        answered = or_transport-some (env.send_request sender sent) response w1 w2 e2;
        status = (==_iff response.status 200).0 (ground (arith, e4));
        length_ = n;
        metadata = ap (λ r. r.0) e5;
        small = subst (λ t. length t ≤ response_body_limit_bytes) whole (bounded (omega arith));
        read =
            subst
              (λ t.
                parse_success_envelope env.raw_document env.read_u64 env.is_json t ≡ ok envelope)
              whole (parsed-read deadline body envelope w6 w' h6);
      }

  module _
      (timely : (deadline : ℕ) (run : Io W ProviderFailure DesiredStateEnvelope) (w w' : W)
          (r : Result ProviderFailure DesiredStateEnvelope)
        → env.timeout_at deadline run w ≡ (some r, w')
        → run w ≡ (r, w')) where
    -- With a timer that returns the result of its future unless the deadline comes first, an
    -- envelope is resolved only from a response of status 200 to the prepared request, with fitting
    -- metadata, whose whole body is within the limit and parses to the envelope.
    pub resolve-IsTrusted :
        (operation_timeout : ℕ) (request : PermissionProviderRequest)
        (envelope : DesiredStateEnvelope) (w w' : W)
        → resolve env operation_timeout request w ≡ (ok envelope, w')
        → IsTrusted request envelope
    unfolding resolve resolve_within_deadline
    resolve-IsTrusted operation_timeout request envelope w w' h =
        let (deadline, w1, e1, h1) =
          proceed-eq-ok (timed env request)
            (effective_deadline env request.context operation_timeout w) h in
        let run = resolve_within_deadline env request deadline in
        let ran : run w1 ≡ (ok envelope, w') =
          timely deadline run w1 w' (ok envelope) (timed-some deadline request envelope w1 w' h1) in
        let (p2, w2, e2, h2) =
          proceed-eq-ok (λ p. lift (prepared env request) >>= prepared_with env deadline)
            (check_context env deadline w1) ran in
        let (sent, w3, e3, h3) =
          proceed-eq-ok (prepared_with env deadline) (lift (prepared env request) w2) h2 in
        let (sender, w4, e4, h4) =
          proceed-eq-ok (exchanged env sent deadline) (opened env deadline w3) h3 in
        sent-IsTrusted request envelope sent sender deadline w4 w' (ap (λ r. r.0) e3) h4
