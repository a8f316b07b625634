-- ===== src/Glpi/Http.antt =====
-- crates/permissionsync-adapter-glpi/src: the configuration, the requests and what surrounds the
-- adapter. `request` is the transport; the URL, header and JSON libraries are parameters.
use permissionsync.Prelude.{ℕ, Bool, List, [], ◌∷◌, Option, ok_or, Text, text}
use mathlib.Core.Option
use permissionsync.Prelude.Io.{Io, pure, ◌>>=◌, ◌>>◌, lift, guard}
use permissionsync.Prelude.Json.{Value}
use permissionsync.Domain.Context.{Signals}
use permissionsync.Glpi.Failure.{GlpiFailure, transport}

-- Signed integers, `pos n` for `n` and `negsuc n` for `-(n + 1)`.
pub data ℤ : Type 0 where
  pos : ℕ → ℤ
  negsuc : ℕ → ℤ

pub data GlpiAuthenticationSource : Type 0 where
  default : GlpiAuthenticationSource
  explicit : ℤ → ℤ → GlpiAuthenticationSource

-- The TLS connector belongs to the transport.
pub record ValidatedConfig : Type 0 where
  pub base : Text
  pub app_token : Text
  pub user_token : Text
  pub operation_timeout : ℕ
  pub authentication_source : GlpiAuthenticationSource

pub data Method : Type 0 where
  get post delete : Method

abbrev pub Pairs : Type 0
Pairs = List (Text × Text)

pub record Request : Type 0 where
  pub method : Method
  pub url : Text
  pub query : Pairs
  pub headers : Pairs
  pub body : Option Text

pub record RawResponse : Type 0 where
  pub status : ℕ
  pub body : Text

-- `document` reads what the parsers walk through, repeated members included; `as_value` is what a
-- `serde_json::Value` keeps of a part of it.
pub record Environment (N W : Type 0) : Type 0 where
  pub signals : Signals W
  -- `Instant::checked_add`
  pub checked_add : ℕ → ℕ → Option ℕ
  pub request : Request → ℕ → Io W GlpiFailure RawResponse
  -- `Url::join`
  pub join : Text → Text → Option Text
  -- `HeaderValue::from_str(…).is_ok()`
  pub is_header_value : Text → Bool
  pub as_u64 : N → Option ℕ
  pub of_u64 : ℕ → N
  pub of_i64 : ℤ → N
  pub document : Text → Option (Value N)
  pub as_value : Value N → Value N
  pub to_vec : Value N → Option Text

pub record GlpiSession : Type 0 where
  pub token : Text

module _ {N W : Type 0} (env : Environment N W) (config : ValidatedConfig) where
  abbrev pub Operation : Type 0 → Type 0
  Operation A = Io W GlpiFailure A

  abbrev pub join_url : Text → Operation Text
  join_url path = lift (ok_or transport (env.join config.base path))

  abbrev pub app_token_header : Operation (Text × Text)
  app_token_header = do
    guard (env.is_header_value config.app_token) transport
    let header : Text × Text = (text "app-token", config.app_token)
    pure header

  abbrev pub session_token_header : GlpiSession → Operation (Text × Text)
  session_token_header session = do
    guard (env.is_header_value session.token) transport
    let header : Text × Text = (text "session-token", session.token)
    pure header

  -- `serde_json::from_slice::<Value>`.
  abbrev pub parse_value : Text → Option (Value N)
  parse_value body = Option.map env.as_value (env.document body)

  abbrev pub session_headers : GlpiSession → Operation Pairs
  session_headers session = do
    token ← session_token_header session
    app ← app_token_header
    let headers : Pairs = token ∷ app ∷ []
    pure headers
