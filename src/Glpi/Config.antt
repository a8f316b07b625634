-- ===== src/Glpi/Config.antt =====
-- crates/permissionsync-adapter-glpi/src/config.rs: the validation of the adapter's configuration.
-- The URL and certificate libraries are parameters.
pub mod Laws
use permissionsync.Prelude.{
  ℕ, Bool, true, false, not, ◌&&◌, List, [], ◌∷◌, ◌++◌, Option, none, some, Result, ok, err, ok_or,
  Text, text, text_eq, ◌==◌, if◌then◌else◌, guard, ◌>>=◌, ◌>>◌,
}
use permissionsync.Glpi.Http.{GlpiAuthenticationSource, ValidatedConfig}
use permissionsync.Glpi.Search.Page.{rsplit_once}

pub data GlpiAdapterConfigError : Type 0 where
  config_error : GlpiAdapterConfigError

pub record GlpiAdapterConfig : Type 0 where
  pub endpoint : Text
  pub app_token : Text
  pub user_token : Text
  pub operation_timeout : ℕ
  pub additional_trust_anchors_pem : List Text
  pub authentication_source : GlpiAuthenticationSource

-- A URL of type `U`, a certificate of type `C` and a connector of type `T`, which `build`
-- makes with the settings of the source and the given roots.
pub record Library (U C T : Type 0) : Type 0 where
  pub parse : Text → Option U
  pub scheme : U → Text
  pub host_str : U → Option Text
  pub username : U → Text
  pub password : U → Option Text
  pub fragment : U → Option Text
  pub query : U → Option Text
  pub path : U → Text
  pub set_path : Text → U → U
  pub as_str : U → Text
  pub stack_from_pem : Text → Option (List C)
  pub build : List C → Option T

-- `url.path().strip_suffix('/').unwrap_or(url.path())`
unfoldable pub strip_slash : Text → Text
strip_slash [] = []
strip_slash (b ∷ []) = if b == 47 then [] else b ∷ []
strip_slash (b ∷ c ∷ t) = b ∷ strip_slash (c ∷ t)

abbrev pub terminal : Text
terminal = text "apirest.php"

abbrev pub is_terminal : Option (Text × Text) → Bool
is_terminal none = false
is_terminal (some (before, last)) = text_eq last terminal

abbrev pub is_missing : Option Text → Bool
is_missing none = true
is_missing (some t) = false

abbrev pub is_empty : Text → Bool
is_empty [] = true
is_empty (b ∷ t) = false

-- `is_none_or(str::is_empty)`
abbrev pub is_blank : Option Text → Bool
is_blank none = true
is_blank (some t) = is_empty t

-- The normalised path of an endpoint.
unfoldable pub base_path : Text → Option Text
unfolding rsplit_once strip_slash
base_path p =
    if is_terminal (rsplit_once 47 (strip_slash p)) then some (strip_slash p ++ text "/") else none

module _ {U C T : Type 0} (library : Library U C T) where
  unfoldable pub is_plain : U → Bool
  is_plain url =
      text_eq (library.scheme url) (text "https")
      && (not (is_blank (library.host_str url))
          && (is_empty (library.username url)
              && (is_missing (library.password url)
                  && (is_missing (library.fragment url) && is_missing (library.query url)))))

  unfoldable pub parse_base : Text → Result GlpiAdapterConfigError U
  unfolding is_plain base_path
  parse_base endpoint = do
    url ← ok_or config_error (library.parse endpoint)
    guard (is_plain url) config_error
    path ← ok_or config_error (base_path (library.path url))
    ok (library.set_path path url)

  -- The loop over the trust anchors.
  unfoldable pub add_anchors : List C → List Text → Result GlpiAdapterConfigError (List C)
  add_anchors roots [] = ok roots
  add_anchors roots (pem ∷ pems) = elim (library.stack_from_pem pem) [
    | none ↦ err config_error
    | some [] ↦ err config_error
    | some (c ∷ cs) ↦ add_anchors (roots ++ c ∷ cs) pems
  ]

  unfoldable pub build_tls_connector : List Text → Result GlpiAdapterConfigError T
  unfolding add_anchors
  build_tls_connector pems = do
    roots ← add_anchors [] pems
    ok_or config_error (library.build roots)

  unfoldable pub validate : GlpiAdapterConfig → Result GlpiAdapterConfigError (ValidatedConfig × T)
  unfolding parse_base build_tls_connector
  validate config = do
    base ← parse_base config.endpoint
    guard (not (config.operation_timeout == 0)) config_error
    guard (not (is_empty config.app_token) && not (is_empty config.user_token)) config_error
    tls_connector ← build_tls_connector config.additional_trust_anchors_pem
    ok (
      record {
        base = library.as_str base;
        app_token = config.app_token;
        user_token = config.user_token;
        operation_timeout = config.operation_timeout;
        authentication_source = config.authentication_source;
      },
      tls_connector,
    )
