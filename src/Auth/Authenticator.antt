-- ===== src/Auth/Authenticator.antt =====
-- crates/permissionsync-auth/src/authenticator.rs: the refresh of the cache and one authentication
-- attempt. The retrieval of a snapshot is an operation of the environment.
pub mod Keeps
pub mod Laws
pub mod Readiness
use permissionsync.Prelude.{
  ℕ, Bool, true, false, not, ◌&&◌, ◌||◌, List, [], ◌∷◌, Option, none, some, ltb, leb, ◌==◌,
  if◌then◌else◌, length, Result, ok, err, ok_or, Text, text, text_eq,
}
use permissionsync.Prelude.Io.{Io, pure, proceed, ◌>>=◌, ◌>>◌, lift, guard, relabel, map_err}
use permissionsync.Domain.Values.{TechnicalCallerBearerToken}
use permissionsync.Domain.Context.{Signals, SynchronizationContext}
use permissionsync.Auth.Types.{
  AuthenticationError, rejected, forbidden, verifier_unavailable, cancelled, TargetSelection,
  AuthenticatedTechnicalCaller, TechnicalCallerClientId, check_context,
}
use permissionsync.Auth.Claims.{F64, Value, ClaimsConfig, validate_claims}
use permissionsync.Auth.Preflight.{preflight_header}
use permissionsync.Auth.Cache.{
  JwtAlgorithm, name, VerificationCachePolicy, Candidate, Snapshot, CacheClassification,
  TrustedVerifierState, usable, unusable, trusted_verifier_state, Verification, valid, no_candidate,
  signature_invalid, CacheVerification, fresh, stale, cold_or_expired, age, classify, is_fresh,
  labelled, verification_result, refreshed_verification_result, stale_cache_fallback_result,
  next_generation, generation_of,
}
use permissionsync.Auth.Verifier.{
  Environment, Config, max_token_bytes, check, timely, locked, classify_cache, verify_current,
}

-- `snapshot.generation != observed && age <= freshness`
unfoldable pub newer_is_fresh :
    {V : Type 0} → VerificationCachePolicy → ℕ → ℕ → Option (Snapshot V) → Bool
newer_is_fresh policy observed now none = false
newer_is_fresh policy observed now (some snapshot) =
    not (snapshot.generation == observed) && is_fresh policy (age snapshot now)

module _ (f : F64) {W V : Type 0} (env : Environment f.Float W V) (config : Config f.Float) where
  abbrev pub Attempt : Type 0 → Type 0
  Attempt B = Io W AuthenticationError B

  pub newer_generation_is_currently_fresh : SynchronizationContext → ℕ → Attempt Bool
  unfolding locked newer_is_fresh
  newer_generation_is_currently_fresh context observed = do
    locked f env config env.read_cache context
    λ w.
        let (now, w') = env.tick w in
        (ok (newer_is_fresh config.cache_policy observed now (env.cache w')), w')

  pub install_snapshot : SynchronizationContext → Snapshot V → Attempt (Unit {0})
  unfolding locked
  install_snapshot context snapshot = do
    locked f env config env.write_cache context
    λ w. (
      ok tt,
      env.install (record snapshot { generation = next_generation (generation_of (env.cache w)) })
          w,
    )

  -- What a failed retrieval means.
  abbrev pub retrieval_error : AuthenticationError → AuthenticationError
  retrieval_error cancelled = cancelled
  retrieval_error rejected = verifier_unavailable
  retrieval_error forbidden = verifier_unavailable
  retrieval_error verifier_unavailable = verifier_unavailable

  -- The retrieval and installation of a snapshot, unless another request has done it.
  abbrev pub replaced_unless : SynchronizationContext → Bool → Attempt (Unit {0})
  replaced_unless context true w = (ok tt, w)
  replaced_unless context false w =
      proceed (install_snapshot context) (map_err retrieval_error (env.fetch_snapshot context) w)

  -- The guard of the refresh lock is dropped on every way out.
  abbrev pub unlocking : {B : Type 0} → Attempt B → Attempt B
  unlocking body w = let (r, w') = body w in (r, env.unlock_refresh w')

  pub replaced : SynchronizationContext → ℕ → Attempt (Unit {0})
  unfolding newer_generation_is_currently_fresh install_snapshot
  replaced context observed = do
    check f env config context
    newer ← newer_generation_is_currently_fresh context observed
    replaced_unless context newer

  pub refresh : SynchronizationContext → ℕ → Attempt (Unit {0})
  unfolding replaced timely
  refresh context observed = do
    check f env config context
    timely f env config env.lock_refresh context
    unlocking (replaced context observed)

  abbrev Caller : Type 0
  Caller = AuthenticatedTechnicalCaller

  abbrev pub refreshed_with :
      (CacheVerification → Result AuthenticationError Caller)
      → Text
      → JwtAlgorithm
      → SynchronizationContext
      → Attempt Caller
  refreshed_with result token algorithm context w =
      let (v, w') = verify_current f env config token algorithm context w in (result v, w')

  pub refresh_then_verify_fresh : Text → JwtAlgorithm → SynchronizationContext → ℕ → Attempt Caller
  unfolding refresh verify_current refreshed_verification_result
  refresh_then_verify_fresh token algorithm context observed = do
    refresh context observed
    refreshed_with refreshed_verification_result token algorithm context

  abbrev pub or_stale :
      Text
      → JwtAlgorithm
      → SynchronizationContext
      → Result AuthenticationError (Unit {0}) × W
      → Result AuthenticationError Caller × W
  or_stale token algorithm context (ok _, w) =
      refreshed_with refreshed_verification_result token algorithm context w
  or_stale token algorithm context (err cancelled, w) = (err cancelled, w)
  or_stale token algorithm context (err rejected, w) =
      refreshed_with stale_cache_fallback_result token algorithm context w
  or_stale token algorithm context (err forbidden, w) =
      refreshed_with stale_cache_fallback_result token algorithm context w
  or_stale token algorithm context (err verifier_unavailable, w) =
      refreshed_with stale_cache_fallback_result token algorithm context w

  pub refresh_or_stale_fallback : Text → JwtAlgorithm → SynchronizationContext → ℕ → Attempt Caller
  unfolding refresh verify_current refreshed_verification_result stale_cache_fallback_result
  refresh_or_stale_fallback token algorithm context observed w =
      or_stale token algorithm context (refresh context observed w)

  abbrev pub or_rejected :
      Text
      → JwtAlgorithm
      → SynchronizationContext
      → Result AuthenticationError (Unit {0}) × W
      → Result AuthenticationError Caller × W
  or_rejected token algorithm context (ok _, w) =
      refreshed_with refreshed_verification_result token algorithm context w
  or_rejected token algorithm context (err cancelled, w) = (err cancelled, w)
  or_rejected token algorithm context (err rejected, w) = (err rejected, w)
  or_rejected token algorithm context (err forbidden, w) = (err rejected, w)
  or_rejected token algorithm context (err verifier_unavailable, w) = (err rejected, w)

  pub refresh_after_proven_signature_invalid :
      Text → JwtAlgorithm → SynchronizationContext → ℕ → Attempt Caller
  unfolding refresh verify_current refreshed_verification_result
  refresh_after_proven_signature_invalid token algorithm context observed w =
      or_rejected token algorithm context (refresh context observed w)

  -- The `match self.verify_current(…)` of a cache that was fresh.
  abbrev pub on_verification :
      Text → JwtAlgorithm → SynchronizationContext → ℕ → CacheVerification → Attempt Caller
  on_verification token algorithm context observed CacheVerification.cancelled =
      lift (err cancelled)
  on_verification token algorithm context observed (stale Verification.rejected) =
      lift (err rejected)
  on_verification token algorithm context observed (stale Verification.verifier_unavailable) =
      lift (err verifier_unavailable)
  on_verification token algorithm context observed (stale signature_invalid) =
      refresh_after_proven_signature_invalid token algorithm context observed
  on_verification token algorithm context observed (stale (valid caller)) =
      refresh_or_stale_fallback token algorithm context observed
  on_verification token algorithm context observed (stale Verification.forbidden) =
      refresh_or_stale_fallback token algorithm context observed
  on_verification token algorithm context observed (stale no_candidate) =
      refresh_or_stale_fallback token algorithm context observed
  on_verification token algorithm context observed cold_or_expired =
      refresh_then_verify_fresh token algorithm context observed
  on_verification token algorithm context observed (fresh (valid caller)) = pure caller
  on_verification token algorithm context observed (fresh Verification.rejected) =
      lift (err rejected)
  on_verification token algorithm context observed (fresh Verification.forbidden) =
      lift (err forbidden)
  on_verification token algorithm context observed (fresh Verification.verifier_unavailable) =
      lift (err verifier_unavailable)
  on_verification token algorithm context observed (fresh no_candidate) =
      refresh_then_verify_fresh token algorithm context observed
  on_verification token algorithm context observed (fresh signature_invalid) =
      refresh_after_proven_signature_invalid token algorithm context observed

  abbrev pub verified_by_class :
      Text → JwtAlgorithm → SynchronizationContext → ℕ × CacheClassification → Attempt Caller
  verified_by_class token algorithm context (observed, fresh) w =
      let (v, w') = verify_current f env config token algorithm context w in
      on_verification token algorithm context observed v w'
  verified_by_class token algorithm context (observed, stale) w =
      refresh_or_stale_fallback token algorithm context observed w
  verified_by_class token algorithm context (observed, cold_or_expired) w =
      refresh_then_verify_fresh token algorithm context observed w

  unfoldable pub authenticate : Option Text → SynchronizationContext → Attempt Caller
  unfolding classify_cache verify_current refresh_then_verify_fresh refresh_or_stale_fallback
      refresh_after_proven_signature_invalid
  authenticate raw_compact_token context = do
    check f env config context
    token ← lift (ok_or rejected raw_compact_token)
    guard (leb (length token) max_token_bytes) rejected
    check f env config context
    algorithm ← lift (preflight_header (env.decode_header token) config.algorithms)
    check f env config context
    observation ← classify_cache f env config context
    verified_by_class token algorithm context observation

  -- The state that the readiness endpoint shows.
  abbrev pub state_of :
      Result AuthenticationError (ℕ × CacheClassification) × W → TrustedVerifierState × W
  state_of (ok (_, classification), w) = (trusted_verifier_state classification, w)
  state_of (err e, w) = (unusable, w)

  pub current_verifier_state : SynchronizationContext → W → TrustedVerifierState × W
  unfolding classify_cache
  current_verifier_state context w = state_of (classify_cache f env config context w)

  abbrev pub after_refresh :
      SynchronizationContext → Result AuthenticationError (Unit {0}) × W → TrustedVerifierState × W
  after_refresh context (ok _, w) = current_verifier_state context w
  after_refresh context (err e, w) = (unusable, w)

  abbrev pub ensured :
      SynchronizationContext
      → Result AuthenticationError (ℕ × CacheClassification) × W
      → TrustedVerifierState × W
  ensured context (err e, w) = (unusable, w)
  ensured context (ok (observed, fresh), w) = (usable, w)
  ensured context (ok (observed, stale), w) = (usable, w)
  ensured context (ok (observed, cold_or_expired), w) =
      after_refresh context (refresh context observed w)

  unfoldable pub ensure_trusted_verifier_state :
      SynchronizationContext → W → TrustedVerifierState × W
  unfolding classify_cache refresh current_verifier_state
  ensure_trusted_verifier_state context w = ensured context (classify_cache f env config context w)
