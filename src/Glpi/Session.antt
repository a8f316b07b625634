-- ===== src/Glpi/Session.antt =====
-- crates/permissionsync-adapter-glpi/src/session.rs: the session of one request.
use permissionsync.Prelude.{
  ℕ, Bool, true, false, not, ◌||◌, [], ◌∷◌, ◌++◌, Option, none, some, ok_or, ◌==◌, Text, text,
  text_eq,
}
use permissionsync.Prelude.Bytes.{trim_start, trim_end}
use mathlib.Core.Option
use permissionsync.Prelude.Io.{Io, pure, ◌>>=◌, ◌>>◌, lift, guard}
use permissionsync.Prelude.Json.{Value, as_str, as_object, get}
use permissionsync.Prelude.Shapes.{and_then, struct_slots, slot, as_number}
use permissionsync.Glpi.Failure.{
  GlpiFailure, transport, session_init_failed, incomplete_visibility, cleanup_failed,
}
use permissionsync.Glpi.Http.{
  Environment, ValidatedConfig, GlpiSession, Request, Method, Pairs, join_url, app_token_header,
  session_headers,
}

-- `u8::is_ascii_whitespace`.
abbrev pub is_ascii_whitespace : ℕ → Bool
is_ascii_whitespace b = b == 32 || (b == 9 || (b == 10 || (b == 12 || b == 13)))

unfoldable pub trim_ascii : Text → Text
unfolding trim_start trim_end
trim_ascii t = trim_end is_ascii_whitespace (trim_start is_ascii_whitespace t)

-- A number that is `1` as an unsigned integer.
abbrev pub is_one : {N : Type 0} → (N → Option ℕ) → Option (Value N) → Bool
is_one as_u64 member = elim (and_then as_u64 (and_then as_number member)) [
  | none ↦ false
  | some n ↦ n == 1
]

module _ {N W : Type 0} (env : Environment N W) (config : ValidatedConfig) where
  abbrev pub bare_request : Method → Text → Pairs → Request
  bare_request method url headers = record {
    method = method;
    url = url;
    query = [];
    headers = headers;
    body = none;
  }

  unfoldable pub session_token : Text → Option Text
  session_token body =
      and_then (λ slots. and_then as_str (slot 0 slots))
        (and_then (struct_slots true (text "session_token" ∷ [])) (env.document body))

  abbrev pub is_empty : Text → Bool
  is_empty [] = true
  is_empty (c ∷ s) = false

  unfoldable pub init_session : ℕ → Io W GlpiFailure GlpiSession
  unfolding session_token
  init_session effective_deadline = do
    url ← join_url env config (text "initSession")
    let authorization : Text = text "user_token " ++ config.user_token
    guard (env.is_header_value authorization) transport
    app ← app_token_header env config
    response ←
        env.request (bare_request Method.get url ((text "authorization", authorization) ∷ app ∷ []))
          effective_deadline
    guard (response.status == 200) session_init_failed
    token ← lift (ok_or session_init_failed (session_token response.body))
    guard (not (is_empty token)) session_init_failed
    let session : GlpiSession = record { token = token }
    pure session

  unfoldable pub force_all_entities : GlpiSession → ℕ → Io W GlpiFailure (Unit {0})
  unfolding trim_ascii
  force_all_entities session effective_deadline = do
    url ← join_url env config (text "changeActiveEntities")
    headers ← session_headers env config session
    response ←
        env.request
          (record (bare_request Method.post url headers) {
            body = some (text "{\"is_recursive\":true}");
          })
          effective_deadline
    guard (response.status == 200) incomplete_visibility
    guard (text_eq (trim_ascii response.body) (text "true")) incomplete_visibility

  -- `session.glpishowallentities`, of an envelope with exactly the member `session`.
  unfoldable pub show_all : Text → Option (Value N)
  show_all body = and_then (get (text "glpishowallentities")) (
      and_then as_object (
        and_then (λ slots. Option.map env.as_value (slot 0 slots))
          (and_then (struct_slots true (text "session" ∷ [])) (env.document body))))

  unfoldable pub verify_complete_visibility : GlpiSession → ℕ → Io W GlpiFailure (Unit {0})
  unfolding show_all
  verify_complete_visibility session effective_deadline = do
    url ← join_url env config (text "getFullSession")
    headers ← session_headers env config session
    response ← env.request (bare_request Method.get url headers) effective_deadline
    guard (response.status == 200) incomplete_visibility
    guard (is_one env.as_u64 (show_all response.body)) incomplete_visibility

  unfoldable pub kill_session : GlpiSession → ℕ → Io W GlpiFailure (Unit {0})
  unfolding trim_ascii
  kill_session session effective_deadline = do
    url ← join_url env config (text "killSession")
    headers ← session_headers env config session
    response ← env.request (bare_request Method.get url headers) effective_deadline
    guard (response.status == 200) cleanup_failed
    guard (text_eq (trim_ascii response.body) (text "true")) cleanup_failed
