-- ===== src/Auth/Claims.antt =====
-- crates/permissionsync-auth/src/claims.rs: claim shapes and temporal validity. The floating-point
-- numbers, the parser of `serde_json` and the two clocks are parameters.
pub mod Laws
use permissionsync.Prelude.{
  ℕ, Bool, true, false, not, ◌&&◌, ◌||◌, List, [], ◌∷◌, Option, none, some, if◌then◌else◌, Result,
  ok, err, ok_or, Text, text, text_eq,
}
use permissionsync.Prelude.Outcome
pub use permissionsync.Prelude.Json.{
  Value, null, bool, number, string, array, object, Items, nil, cons, Fields, end, field, as_str,
  as_object, get,
}
use permissionsync.Prelude.Io.{Io, pure, proceed, ◌>>=◌, ◌>>◌, lift, guard}
use permissionsync.Prelude.Shapes.{keep, and_then}
use permissionsync.Domain.Context.{Signals, SynchronizationContext}
use permissionsync.Auth.Types.{
  AuthenticationError, rejected, forbidden, verifier_unavailable, cancelled, TargetSelection,
  check_context,
}
use permissionsync.Auth.Scope.{parse_scope_text, select_target}

-- `f64`, as far as the claims need it.
pub record F64 : Type 1 where
  pub Float : Type 0
  pub is_finite : Float → Bool
  pub abs : Float → Float
  -- A literal, for numbers up to `2 ^ 53`.
  pub of_nat : ℕ → Float
  pub le : Float → Float → Bool
  pub gt : Float → Float → Bool
  pub add : Float → Float → Float

module _ {F : Type 0} where
  abbrev pub as_f64 : Value F → Option F
  as_f64 (number n) = some n
  as_f64 null = none
  as_f64 (bool b) = none
  as_f64 (string s) = none
  as_f64 (array v) = none
  as_f64 (object m) = none

  abbrev pub is_string : Value F → Bool
  is_string (string s) = true
  is_string null = false
  is_string (bool b) = false
  is_string (number n) = false
  is_string (array v) = false
  is_string (object m) = false

  abbrev pub is_text : Text → Value F → Bool
  is_text t (string s) = text_eq s t
  is_text t null = false
  is_text t (bool b) = false
  is_text t (number n) = false
  is_text t (array v) = false
  is_text t (object m) = false

  unfoldable pub all_items : (Value F → Bool) → Items F → Bool
  all_items p nil = true
  all_items p (cons v vs) = p v && all_items p vs

  unfoldable pub any_item : (Value F → Bool) → Items F → Bool
  any_item p nil = false
  any_item p (cons v vs) = p v || any_item p vs

  unfoldable pub audience_matches : Option (Value F) → Text → Bool
  unfolding all_items any_item
  audience_matches (some (string value)) expected = text_eq value expected
  audience_matches (some (array (cons v vs))) expected =
      all_items is_string (cons v vs) && any_item (is_text expected) (cons v vs)
  audience_matches (some (array nil)) expected = false
  audience_matches (some null) expected = false
  audience_matches (some (bool b)) expected = false
  audience_matches (some (number n)) expected = false
  audience_matches (some (object m)) expected = false
  audience_matches none expected = false

  -- A claim that is a string, equal to the given one.
  abbrev pub claim_is : Text → Option (Value F) → Bool
  claim_is expected none = false
  claim_is expected (some v) = is_text expected v

-- The parts of the configuration that the claims are checked against.
pub record ClaimsConfig (F : Type 0) : Type 0 where
  pub issuer : Text
  pub audience : Text
  -- `clock_skew.as_secs_f64()`
  pub clock_skew : F

pub record ParsedAuthenticationClaims (F : Type 0) : Type 0 where
  pub client_id : Text
  pub exp : F
  pub iat : F
  pub nbf : Option F

module _ (f : F64) where
  open f use {Float, is_finite, abs, of_nat, le, gt, add}

  -- `value.is_finite() && value.abs() <= 9_007_199_254_740_991.0`
  abbrev pub is_safe : Float → Bool
  is_safe value = is_finite value && le (abs value) (of_nat 9007199254740991)

  unfoldable pub numeric_date : Option (Value Float) → Option Float
  numeric_date value = keep is_safe (and_then as_f64 value)

  -- `claims.get("nbf").map(…).transpose()?`
  unfoldable pub optional_date : Option (Value Float) → Result AuthenticationError (Option Float)
  unfolding numeric_date
  optional_date none = ok none
  optional_date (some v) = Outcome.map_ok some (ok_or rejected (numeric_date (some v)))

  unfoldable pub parse_authentication_claim_shapes :
      Fields Float
      → ClaimsConfig Float
      → Result AuthenticationError (ParsedAuthenticationClaims Float)
  unfolding get audience_matches optional_date numeric_date
  parse_authentication_claim_shapes claims config =
      if not (claim_is config.issuer (get (text "iss") claims))
        || not (audience_matches (get (text "aud") claims) config.audience)
      then err rejected
      else Outcome.◌>>=◌ (ok_or rejected (numeric_date (get (text "exp") claims))) λ exp.
        Outcome.◌>>=◌ (ok_or rejected (numeric_date (get (text "iat") claims))) λ iat.
          Outcome.◌>>=◌ (ok_or rejected (and_then as_str (get (text "client_id") claims)))
            λ client_id.
              Outcome.◌>>=◌ (optional_date (get (text "nbf") claims))
                λ nbf. ok (record { client_id = client_id; exp = exp; iat = iat; nbf = nbf })

  abbrev pub is_after : Float → Option Float → Bool
  is_after allowed none = false
  is_after allowed (some nbf) = gt nbf allowed

  -- `parsed.exp <= now || parsed.iat > allowed || parsed.nbf.is_some_and(|nbf| nbf > allowed)`
  unfoldable pub outside_validity :
      ClaimsConfig Float → ParsedAuthenticationClaims Float → Float → Bool
  outside_validity config parsed now =
      let allowed = add now config.clock_skew in
      le parsed.exp now || (gt parsed.iat allowed || is_after allowed parsed.nbf)

  -- `select_target(parse_scope_shape(value)?)`
  unfoldable pub scope_selection : Option (Value Float) → Result AuthenticationError TargetSelection
  scope_selection none = select_target none
  scope_selection (some v) = elim (as_str v) [
    | none ↦ err rejected
    | some scope ↦ Outcome.◌>>=◌ (parse_scope_text scope) select_target
  ]

  module _ {W : Type 0} (signals : Signals W) (parse_json : Text → Option (Value Float))
      (unix_seconds : W → Option Float × W) where
    -- The wall clock, which may be unavailable.
    unfoldable pub wall_clock : Io W AuthenticationError Float
    wall_clock w = let (t, w') = unix_seconds w in (ok_or verifier_unavailable t, w')

    unfoldable pub validate_claims :
        Text
        → ClaimsConfig Float
        → SynchronizationContext
        → Io W AuthenticationError (Text × TargetSelection)
    unfolding wall_clock
    validate_claims payload config context = do
      check_context signals context
      value ← lift (ok_or rejected (parse_json payload))
      claims ← lift (ok_or rejected (as_object value))
      parsed ← lift (parse_authentication_claim_shapes claims config)
      check_context signals context
      now ← wall_clock
      guard (not (outside_validity config parsed now)) rejected
      check_context signals context
      selection ← lift (scope_selection (get (text "scope") claims))
      check_context signals context
      pure (parsed.client_id, selection)
