-- ===== src/Tests/Auth.antt =====
-- crates/permissionsync-auth on one token, with whole numbers for the floating-point ones.
use permissionsync.Prelude.{
  ℕ, ◌+◌, ◌≤◌, ◌<◌, ◌≡◌, refl, ◌↔◌, ◌⊎◌, Bool, true, false, [], ◌∷◌, ◌++◌, Option, none, some, ltb,
  leb, length, arith, ok, err, Text, text,
}
use permissionsync.Prelude.Bytes.{starts_with, split}
use permissionsync.Domain.Target.Grammar.{Matches}
use permissionsync.Domain.Context.{Signals, SynchronizationContext}
use permissionsync.Auth.Types.{
  check_context, forbidden, no_target, selected, AuthenticatedTechnicalCaller,
}
use permissionsync.Auth.Scope.{scope_prefix, parse_scope_text, valid_scope_token, select_target}
use permissionsync.Auth.Scope.Laws.{
  selection, grants, IsScope, selection-selected_iff, selection-forbidden_iff,
}
use permissionsync.Auth.Claims.{
  F64, Value, string, number, object, Fields, end, field, ClaimsConfig, validate_claims,
  parse_authentication_claim_shapes, outside_validity, scope_selection,
}
use permissionsync.Auth.Claims.Laws.{IsValid, validate_claims-IsValid}
use permissionsync.Auth.Cache.{
  JwtAlgorithm, rs256, VerificationCachePolicy, Snapshot, fresh, stale, cold_or_expired, usable,
  valid, CacheVerification, age, classify, refreshed_verification_result,
}
use permissionsync.Auth.Cache.Laws.{classify_iff, refreshed_verification_result-ok_iff}
use permissionsync.Auth.Preflight.{IsAccepted, preflight_header}
use permissionsync.Auth.Verifier.{Environment, Config, Marks, max_token_bytes}
use permissionsync.Auth.Verifier.Keeps.{IsKept}
use permissionsync.Auth.Verifier.Laws.{Retained, Vouched}
use permissionsync.Auth.Authenticator.{authenticate, ensure_trusted_verifier_state}
use permissionsync.Auth.Authenticator.Laws.{authenticate-Vouched}
use permissionsync.Auth.Authenticator.Readiness.{ensure_trusted_verifier_state-Retained}

selection_test :
    selection (text "openid permissionsync:glpi") ≡ ok (selected (record { value = text "glpi" }))
unfolding parse_scope_text split valid_scope_token select_target starts_with
selection_test = refl

selection-selected_iff_example :
    (selection (text "openid permissionsync:glpi") ≡ ok (selected (record { value = text "glpi" })))
    ↔ (IsScope (text "openid permissionsync:glpi")
        × (grants (text "openid permissionsync:glpi") ≡ (scope_prefix ++ text "glpi") ∷ [])
        × Matches (text "glpi"))
selection-selected_iff_example =
    selection-selected_iff (text "openid permissionsync:glpi") (record { value = text "glpi" })

selection-forbidden_iff_example :
    (selection (text "permissionsync:a permissionsync:b") ≡ err forbidden) ↔ (
      IsScope (text "permissionsync:a permissionsync:b")
      × ((2 ≤ length (grants (text "permissionsync:a permissionsync:b")))
          ⊎ ((suffix : Text) × (grants (text "permissionsync:a permissionsync:b")
                ≡ (scope_prefix ++ suffix) ∷ [])
              × (¬ Matches suffix))))
selection-forbidden_iff_example = selection-forbidden_iff (text "permissionsync:a permissionsync:b")

abbrev whole : F64
whole = record {
  Float = ℕ;
  is_finite = λ n. true;
  abs = λ n. n;
  of_nat = λ n. n;
  le = leb;
  gt = λ a b. ltb b a;
  add = ◌+◌;
}

abbrev claims_config : ClaimsConfig ℕ
claims_config = record { issuer = text "i"; audience = text "s"; clock_skew = 2 }

abbrev claims : Fields ℕ
claims = field (text "iss") (string (text "i")) (
    field (text "aud") (string (text "s")) (
      field (text "exp") (number 50)
        (field (text "iat") (number 40) (field (text "client_id") (string (text "c")) end))))

-- The world is the reading of the clock, and no call moves it.
abbrev signals : Signals ℕ
signals = record { is_cancelled = λ w. (false, w); now = λ w. (w, w) }

abbrev parse_json : Text → Option (Value ℕ)
parse_json payload = some (object claims)

abbrev unix_seconds : ℕ → Option ℕ × ℕ
unix_seconds w = (some w, w)

abbrev context : SynchronizationContext
context = record { deadline = 60 }

validate_claims_test :
    validate_claims whole signals parse_json unix_seconds [] claims_config context 45
    ≡ (ok (text "c", no_target), 45)
unfolding validate_claims check_context parse_authentication_claim_shapes outside_validity
    scope_selection select_target
validate_claims_test = refl

validate_claims-IsValid_example :
    IsValid whole signals parse_json unix_seconds [] claims_config context 45 (text "c") no_target
validate_claims-IsValid_example =
    validate_claims-IsValid whole signals parse_json unix_seconds [] claims_config context 45 45
      (text "c") no_target validate_claims_test

abbrev policy : VerificationCachePolicy
policy = record { freshness = 10; stale_if_error = 5 }

classify_iff_example :
    ((classify policy (some 12) ≡ fresh) ↔ (12 ≤ 10))
    × ((classify policy (some 12) ≡ stale) ↔ ((10 < 12) × (12 ≤ 10 + 5)))
    × ((classify policy (some 12) ≡ cold_or_expired) ↔ (10 + 5 < 12))
classify_iff_example = classify_iff policy 12 (omega arith)

abbrev caller : AuthenticatedTechnicalCaller
caller = record {
  client_id = record { value = text "c" };
  bearer_token = record { value = text "t" };
  target_selection = no_target;
}

refreshed_verification_result-ok_iff_example :
    (refreshed_verification_result (stale (valid caller)) ≡ ok caller)
    ↔ (◌≡◌ {A = CacheVerification} (stale (valid caller)) (fresh (valid caller)))
refreshed_verification_result-ok_iff_example =
    refreshed_verification_result-ok_iff (stale (valid caller)) caller

abbrev snapshot : Snapshot Bool
snapshot = record {
  candidates = record { kid = none; algorithm = rs256; with_kid = true; without_kid = true } ∷ [];
  acquired = 40;
  generation = 1;
}

abbrev verified : Option Bool × Marks → Option Text × Marks
verified (none, m) = (none, m)
verified (some v, m) = (some [], m)

-- Every lock is free, and every token has the header of RS256 without a key id.
abbrev world : Environment ℕ ℕ Bool
world = record {
  signals = signals;
  parse_json = parse_json;
  unix_seconds = unix_seconds;
  tick = λ w. (w, w);
  decode_header =
      λ token. some (some (record { claim = λ name. none; algorithm = some (text "RS256") }));
  deserialize = λ token select m. verified (
      select (record { has_claim = λ name. false; algorithm = some (text "RS256"); key_id = none })
        m);
  read_cache = λ deadline w. (true, w);
  write_cache = λ deadline w. (true, w);
  lock_refresh = λ deadline w. (true, w);
  unlock_refresh = λ w. w;
  cache = λ w. some snapshot;
  install = λ s w. w;
  fetch_snapshot = λ context w. (ok snapshot, w);
}

abbrev config : Config ℕ
config = record { claims = claims_config; algorithms = rs256 ∷ []; cache_policy = policy }

-- The clock stands still.
abbrev At45 : ℕ → Type 0
At45 w = w ≡ 45

At45-IsKept : IsKept world At45
At45-IsKept = record {
  is_cancelled = λ w h. h;
  now = λ w h. h;
  unix_seconds = λ w h. h;
  tick = λ w h. h;
  read_cache = λ deadline w h. h;
  write_cache = λ deadline w h. h;
  lock_refresh = λ deadline w h. h;
  unlock_refresh = λ w h. h;
  install = λ snapshot w h. h;
  fetch_snapshot = λ context w h. h;
}

authenticate_test : authenticate whole world config (some (text "t")) context 45 ≡ (ok caller, 45)
unfolding authenticate validate_claims check_context parse_authentication_claim_shapes
    outside_validity scope_selection select_target classify age preflight_header
authenticate_test = refl

authenticate-Vouched_example :
    (token : Text) × (algorithm : JwtAlgorithm) × (◌≡◌ {A = Option Text}
      (some (text "t"))
      (some token))
    × (leb (length token) max_token_bytes ≡ true)
    × IsAccepted (world.decode_header token) config.algorithms algorithm
    × Vouched whole world config At45 token algorithm context caller
authenticate-Vouched_example =
    authenticate-Vouched whole world config At45 At45-IsKept (some (text "t")) context 45 45 caller
      refl authenticate_test

ensure_test : (ensure_trusted_verifier_state whole world config context 45).0 ≡ usable
unfolding ensure_trusted_verifier_state check_context classify age
ensure_test = refl

ensure_trusted_verifier_state-Retained_example : Retained whole world config At45
ensure_trusted_verifier_state-Retained_example =
    ensure_trusted_verifier_state-Retained whole world config At45 At45-IsKept context 45 refl
      ensure_test
