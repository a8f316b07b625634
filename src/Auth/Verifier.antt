-- ===== src/Auth/Verifier.antt =====
-- crates/permissionsync-auth/src/authenticator.rs: what one attempt reads of the cache, and the
-- verification of a token against it. The JWS library, the clocks and the locks are parameters; the
-- cache is read from the state of the world, which an awaited lock may have changed.
pub mod Keeps
pub mod Laws
use permissionsync.Prelude.{
  ℕ, Bool, true, false, not, ◌&&◌, ◌||◌, List, [], ◌∷◌, Option, none, some, ltb, leb, ◌==◌,
  if◌then◌else◌, length, Result, ok, err, ok_or, Text, text, text_eq,
}
use permissionsync.Prelude.Io.{Io, pure, proceed, ◌>>=◌, ◌>>◌, lift, guard, relabel, map_err}
use permissionsync.Domain.Values.{TechnicalCallerBearerToken}
use permissionsync.Domain.Context.{Signals, SynchronizationContext}
use permissionsync.Auth.Types.{
  AuthenticationError, rejected, forbidden, verifier_unavailable, cancelled, TargetSelection,
  AuthenticatedTechnicalCaller, TechnicalCallerClientId, check_context,
}
use permissionsync.Auth.Claims.{F64, Value, ClaimsConfig, validate_claims}
use permissionsync.Auth.Preflight.{Decoded, is_prohibited}
use permissionsync.Auth.Cache.{
  JwtAlgorithm, name, VerificationCachePolicy, Candidate, Snapshot, CacheClassification,
  TrustedVerifierState, usable, unusable, trusted_verifier_state, Verification, valid, no_candidate,
  signature_invalid, CacheVerification, fresh, stale, cold_or_expired, age, classify, is_fresh,
  labelled, verification_result, refreshed_verification_result, stale_cache_fallback_result,
  next_generation, generation_of,
}

-- A protected header: which claims it has, its `alg` and its `kid`.
pub record Header : Type 0 where
  pub has_claim : Text → Bool
  pub algorithm : Option Text
  pub key_id : Option Text

-- The two cells that the selector writes.
pub record Marks : Type 0 where
  pub prohibited_header : Bool
  pub selected : Bool

abbrev pub Selector : Type 0 → Type 0
Selector V = Header → Marks → Option V × Marks

abbrev pub max_token_bytes : ℕ
max_token_bytes = 16384

-- What surrounds the authenticator. A lock is acquired, or its wait ends at the deadline.
pub record Environment (F W V : Type 0) : Type 0 where
  pub signals : Signals W
  pub parse_json : Text → Option (Value F)
  pub unix_seconds : W → Option F × W
  pub tick : W → ℕ × W
  pub decode_header : Text → Decoded F
  pub deserialize : Text → Selector V → Marks → Option Text × Marks
  pub read_cache : ℕ → W → Bool × W
  pub write_cache : ℕ → W → Bool × W
  pub lock_refresh : ℕ → W → Bool × W
  pub unlock_refresh : W → W
  pub cache : W → Option (Snapshot V)
  pub install : Snapshot V → W → W
  pub fetch_snapshot : SynchronizationContext → Io W AuthenticationError (Snapshot V)

pub record Config (F : Type 0) : Type 0 where
  pub claims : ClaimsConfig F
  pub algorithms : List JwtAlgorithm
  pub cache_policy : VerificationCachePolicy

-- `Some(kid) if candidate.kid.as_deref() == Some(kid)`
abbrev pub is_kid : Text → Option Text → Bool
is_kid kid none = false
is_kid kid (some own) = text_eq own kid

abbrev pub chosen : {V : Type 0} → Candidate V → Option Text → Option V
chosen candidate (some kid) = if is_kid kid candidate.kid then some candidate.with_kid else none
chosen candidate none = some candidate.without_kid

abbrev pub marked : {V : Type 0} → Option V → Marks → Option V × Marks
marked none m = (none, m)
marked (some verifier) m = (some verifier, record m { selected = true })

-- The closure that `verify_current` gives to the library, for one candidate.
unfoldable pub selector : {V : Type 0} → JwtAlgorithm → Candidate V → Selector V
unfolding name
selector algorithm candidate header m =
    if is_prohibited header.has_claim
    then (none, record m { prohibited_header = true })
    else if not (text_eq (name candidate.algorithm) (name algorithm))
        || not (is_kid (name algorithm) header.algorithm)
    then (none, m)
    else marked (chosen candidate header.key_id) m

-- After the last candidate.
abbrev pub concluded : Bool → Bool → Verification
concluded prohibited selected_any =
    if prohibited
    then Verification.rejected
    else if selected_any
    then signature_invalid
    else no_candidate

module _ (f : F64) {W V : Type 0} (env : Environment f.Float W V) (config : Config f.Float) where
  abbrev pub Attempt : Type 0 → Type 0
  Attempt B = Io W AuthenticationError B

  abbrev pub check : SynchronizationContext → Attempt (Unit {0})
  check context = check_context env.signals context

  -- `timeout_at(deadline, …).await.map_err(|_| Cancelled)?` between two checks.
  unfoldable pub timely : (ℕ → W → Bool × W) → SynchronizationContext → Attempt (Unit {0})
  timely acquire context w =
      let (acquired, w') = acquire context.deadline w in
      (if acquired then ok tt else err cancelled, w')

  unfoldable pub locked : (ℕ → W → Bool × W) → SynchronizationContext → Attempt (Unit {0})
  unfolding timely
  locked acquire context = do check context; timely acquire context; check context

  unfoldable pub classified : Option (Snapshot V) → W → (ℕ × CacheClassification) × W
  classified none w = ((0, cold_or_expired), w)
  classified (some snapshot) w =
      let (now, w') = env.tick w in
      ((snapshot.generation, classify config.cache_policy (age snapshot now)), w')

  unfoldable pub current_classification : Attempt (ℕ × CacheClassification)
  unfolding classified
  current_classification w = let (c, w') = classified (env.cache w) w in (ok c, w')

  unfoldable pub classify_cache : SynchronizationContext → Attempt (ℕ × CacheClassification)
  unfolding locked current_classification
  classify_cache context = do locked env.read_cache context; current_classification

  -- What the outcome of `validate_claims` means; `Cancelled` ends the verification.
  abbrev pub settled :
      Text
      → Result AuthenticationError (Text × TargetSelection) × W
      → Result AuthenticationError Verification × W
  settled token (ok (client_id, target_selection), w) = (
    ok (
        valid (record {
          client_id = record { value = client_id };
          bearer_token = record { value = token };
          target_selection = target_selection;
        })),
    w,
  )
  settled token (err cancelled, w) = (err cancelled, w)
  settled token (err verifier_unavailable, w) = (ok Verification.verifier_unavailable, w)
  settled token (err forbidden, w) = (ok Verification.forbidden, w)
  settled token (err rejected, w) = (ok Verification.rejected, w)

  abbrev pub attempted :
      Text → SynchronizationContext → Option Text → Attempt Verification → Attempt Verification
  attempted token context none rest w = rest w
  attempted token context (some payload) rest w = settled token (
      validate_claims f env.signals env.parse_json env.unix_seconds payload config.claims context w)

  -- The loop over the candidates.
  pub try_candidates :
      Text
      → JwtAlgorithm
      → SynchronizationContext
      → List (Candidate V)
      → Bool
      → Bool
      → Attempt Verification
  unfolding selector
  try_candidates token algorithm context [] prohibited selected_any =
      pure (concluded prohibited selected_any)
  try_candidates token algorithm context (candidate ∷ candidates) prohibited selected_any =
      let (output, m) =
        env.deserialize token (selector algorithm candidate)
          (record { prohibited_header = prohibited; selected = false }) in
      let rest =
        try_candidates token algorithm context candidates m.prohibited_header
          (selected_any || m.selected) in
      do check context; check context; attempted token context output rest

  abbrev pub shown :
      CacheClassification → Result AuthenticationError Verification × W → CacheVerification × W
  shown c (ok v, w) = (labelled c v, w)
  shown c (err e, w) = (CacheVerification.cancelled, w)

  abbrev pub verified_at :
      Text
      → JwtAlgorithm
      → SynchronizationContext
      → Snapshot V
      → CacheClassification
      → W
      → CacheVerification × W
  verified_at token algorithm context snapshot cold_or_expired w = (cold_or_expired, w)
  verified_at token algorithm context snapshot fresh w =
      shown fresh (try_candidates token algorithm context snapshot.candidates false false w)
  verified_at token algorithm context snapshot stale w =
      shown stale (try_candidates token algorithm context snapshot.candidates false false w)

  pub verify_snapshot :
      Text → JwtAlgorithm → SynchronizationContext → Option (Snapshot V) → W → CacheVerification × W
  unfolding try_candidates
  verify_snapshot token algorithm context none w = (cold_or_expired, w)
  verify_snapshot token algorithm context (some snapshot) w =
      let (now, w') = env.tick w in
      verified_at token algorithm context snapshot (classify config.cache_policy (age snapshot now))
        w'

  abbrev pub verify_locked :
      Text
      → JwtAlgorithm
      → SynchronizationContext
      → Result AuthenticationError (Unit {0}) × W
      → CacheVerification × W
  verify_locked token algorithm context (err e, w) = (CacheVerification.cancelled, w)
  verify_locked token algorithm context (ok _, w) =
      verify_snapshot token algorithm context (env.cache w) w

  unfoldable pub verify_current :
      Text → JwtAlgorithm → SynchronizationContext → W → CacheVerification × W
  unfolding locked verify_snapshot
  verify_current token algorithm context w =
      verify_locked token algorithm context (locked env.read_cache context w)
