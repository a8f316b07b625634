-- ===== src/Tests/Inbound.antt =====
-- crates/permissionsync-inbound-http/src/lib.rs on one login for a selected target.
use permissionsync.Prelude.{
  ℕ, ◌≡◌, refl, true, false, List, [], ◌∷◌, ◌++◌, none, some, ok, err, Text, text, ◌<◌, arith,
}
use permissionsync.Prelude.Json.{Value, string, array, object, nil, cons, end, field}
use permissionsync.Prelude.Shapes.{struct_slots}
use permissionsync.Prelude.Bytes.{eq_ignore_ascii_case}
use permissionsync.Domain.Context
use permissionsync.Domain.Context.{SynchronizationContext}
use permissionsync.Auth.Types.{AuthenticationError, AuthenticatedTechnicalCaller, selected}
use permissionsync.Inbound.Bearer.{HeaderField, bearer_of, extract_bearer, is_b64token}
use permissionsync.Inbound.Bearer.Grammar.{IsBearer, bearer_of-IsBearer, spaces_of, bearer_of-token}
use permissionsync.Inbound.{
  collected, HttpOutcome, status_code, InboundHttpHandler, parsed_login, validated, available,
  dispatch, handle_authenticated, continue_after_authentication, handle,
}
use permissionsync.Inbound.Laws.{IsAccepted, handle-IsAccepted}

abbrev login : Value ℕ
login = object (
    field (text "event_type") (string (text "LOGIN")) (
      field (text "username") (string (text "u"))
        (field (text "groups") (array (cons (string (text "g")) nil)) end)))

abbrev caller : Text → AuthenticatedTechnicalCaller
caller token = record {
  client_id = record { value = text "c" };
  bearer_token = record { value = token };
  target_selection = selected (record { value = text "glpi" });
}

-- Every token is authentic, and every synchronization changes something.
abbrev handler : InboundHttpHandler ℕ ℕ
handler = record {
  signals = record { is_cancelled = λ w. (false, w); now = λ w. (0, w) };
  authenticate = λ token context w. elim token [
    | none ↦ (err AuthenticationError.rejected, w)
    | some t ↦ (ok (caller t), w)
  ];
  synchronize = λ request w. (ok Context.changed, w);
  document = λ bytes. some login;
}

abbrev headers : List HeaderField
headers =
    record { name = text "Host"; value = text "h" }
    ∷ record { name = text "AUTHORIZATION"; value = text "bEARER  abc==" }
    ∷ []

abbrev context : SynchronizationContext
context = record { deadline = 9 }

bearer : bearer_of (some (text "bEARER  abc==")) ≡ some (text "abc==")
unfolding bearer_of
bearer = refl

handled : handle handler headers (collected (text "body")) context 0 ≡ (HttpOutcome.changed, 0)
unfolding handle available extract_bearer continue_after_authentication handle_authenticated
    parsed_login struct_slots validated dispatch
handled = refl

success : status_code HttpOutcome.changed < 300
unfolding status_code
success = omega arith

handle-IsAccepted_example :
    IsAccepted handler headers (collected (text "body")) context HttpOutcome.changed
handle-IsAccepted_example =
    handle-IsAccepted handler headers (collected (text "body")) context 0 0 HttpOutcome.changed
      handled success

bearer_of-IsBearer_example : IsBearer (text "bEARER  abc==") (text "abc==")
bearer_of-IsBearer_example = bearer_of-IsBearer (text "bEARER  abc==") (text "abc==") bearer

named : eq_ignore_ascii_case (text "BeaRer") (text "bearer") ≡ true
unfolding eq_ignore_ascii_case
named = refl

is_token : is_b64token (text "a.b-c=") ≡ true
unfolding is_b64token
is_token = refl

bearer_of-token_example :
    bearer_of (some (text "BeaRer" ++ (spaces_of 2 ++ text "a.b-c="))) ≡ some (text "a.b-c=")
bearer_of-token_example = bearer_of-token (text "BeaRer") (text "a.b-c=") 1 named is_token
