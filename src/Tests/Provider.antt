-- ===== src/Tests/Provider.antt =====
-- crates/permissionsync-provider-generic-rest/src on one response in two chunks.
use permissionsync.Prelude.{
  ℕ, ◌≡◌, ◌≤◌, refl, true, false, [], ◌∷◌, ◌++◌, none, some, if◌then◌else◌, Result, ok, Text, text,
  text_eq, length, arith,
}
use permissionsync.Prelude.Io.{Io}
use permissionsync.Prelude.Json.{Value, number, object, end, field}
use permissionsync.Prelude.Shapes.{struct_slots}
use permissionsync.Prelude.Decimal.{parse_u64}
use permissionsync.Domain.Values.{DesiredStateEnvelope}
use permissionsync.Domain.Context.{PermissionProviderRequest}
use permissionsync.Provider.Wire.{ProviderFailure, validate_success_headers, parse_success_envelope}
use permissionsync.Provider.Client.{
  data_, trailers, Response, Environment, resolve, read_body, check_context, effective_deadline,
  resolve_within_deadline, prepared, opened, send_and_read_response,
}
use permissionsync.Provider.Client.Laws.{payload, IsTrusted, resolve-IsTrusted, read_body-payload}

abbrev response : Response
response = record {
  status = 200;
  headers = record {
    content_type = text "application/json" ∷ [];
    content_encoding = [];
    content_length = text "4" ∷ [];
  };
  frames = data_ (text "bo") ∷ trailers ∷ data_ (text "dy") ∷ [];
}

abbrev document : Value Text
document =
    object
      (field (text "version") (number (text "1")) (field (text "payload") (number (text "{}")) end))

-- Nothing is cancelled, and the timer never comes first.
abbrev env : Environment ℕ ℕ ℕ
env = record {
  signals = record { is_cancelled = λ w. (false, w); now = λ w. (0, w) };
  later = λ m n. none;
  has_runtime = λ w. true;
  timeout_at = λ deadline run w. let (r, w') = run w in (some r, w');
  serialize = λ identity. some (text "i");
  is_header_value = λ t. true;
  can_build = λ r. true;
  resolve_one_address = λ deadline w. (ok 0, w);
  connect = λ a w. (some 0, w);
  tls = λ c w. (some 0, w);
  handshake = λ c w. (some 0, w);
  send_request = λ c r w. (some response, w);
  parse_mime = λ t.
      some (record {
        type_ = text "application";
        subtype = text "JSON";
        charsets = text "UTF-8" ∷ [];
      });
  to_str = λ t. some t;
  raw_document = λ t. if text_eq t (text "body") then some document else none;
  read_u64 = parse_u64;
  is_json = λ t. true;
}

abbrev request : PermissionProviderRequest
request = record {
  identity = record { username = text "u"; groups = [] };
  target = record { value = text "x" };
  technical_caller_bearer_token = record { value = text "t" };
  context = record { deadline = 9 };
}

abbrev envelope : DesiredStateEnvelope
envelope = record { version = record { value = 1 }; payload = record { json = text "{}" } }

resolved : resolve env 5 request 0 ≡ (ok envelope, 0)
unfolding resolve effective_deadline resolve_within_deadline check_context prepared opened
    send_and_read_response validate_success_headers read_body parse_success_envelope struct_slots
    parse_u64
resolved = refl

timely :
    (deadline : ℕ) (run : Io ℕ ProviderFailure DesiredStateEnvelope) (w w' : ℕ)
    (r : Result ProviderFailure DesiredStateEnvelope)
    → env.timeout_at deadline run w ≡ (some r, w')
    → run w ≡ (r, w')
timely deadline run w w' r h = ground arith

resolve-IsTrusted_example : IsTrusted env request envelope
resolve-IsTrusted_example = resolve-IsTrusted env timely 5 request envelope 0 0 resolved

read : read_body env 9 4 [] response.frames 0 ≡ (ok (text "body"), 0)
unfolding read_body check_context
read = refl

read_body-payload_example :
    (text "body" ≡ [] ++ payload response.frames)
    × (length {A = ℕ} [] ≤ 4 → length (text "body") ≤ 4)
read_body-payload_example = read_body-payload env 9 4 [] (text "body") response.frames 0 0 read
