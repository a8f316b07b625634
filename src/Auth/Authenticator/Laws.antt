-- ===== src/Auth/Authenticator/Laws.antt =====
-- crates/permissionsync-auth/src/authenticator.rs: what a successful attempt rests on.
use permissionsync.Prelude.{
  ℕ, Bool, true, false, Option, none, some, leb, length, ok_or, ◌≡◌, refl, subst, ap, inl, Result,
  ok, err, Text,
}
use permissionsync.Prelude.Io.{Io, proceed-eq-ok, ◌>>=◌, ◌>>◌, lift, guard}
use permissionsync.Domain.Context.{SynchronizationContext}
use permissionsync.Auth.Types.{
  AuthenticationError, rejected, forbidden, verifier_unavailable, cancelled,
  AuthenticatedTechnicalCaller,
}
use permissionsync.Auth.Claims.{F64}
use permissionsync.Auth.Preflight.{preflight_header, preflight_header-IsAccepted, IsAccepted}
use permissionsync.Auth.Cache.{
  JwtAlgorithm, CacheClassification, Verification, valid, no_candidate, signature_invalid,
  CacheVerification, fresh, stale, cold_or_expired, refreshed_verification_result,
  stale_cache_fallback_result,
}
use permissionsync.Auth.Cache.Laws.{
  Accepts, refreshed_verification_result-ok_iff, stale_cache_fallback_result-ok_iff,
}
use permissionsync.Auth.Verifier.{
  Environment, Config, max_token_bytes, check, classify_cache, verify_current,
}
use permissionsync.Auth.Verifier.Laws.{Vouched, verify_current-Vouched}
use permissionsync.Auth.Verifier.Keeps.{IsKept, guard-Keeps, check-Keeps, verify_current-Keeps}
use permissionsync.Auth.Authenticator.Keeps.{classify_cache-Keeps, refresh-Keeps}
use permissionsync.Auth.Authenticator.{
  refreshed_with, refresh, refresh_then_verify_fresh, or_stale, refresh_or_stale_fallback,
  or_rejected, refresh_after_proven_signature_invalid, on_verification, verified_by_class,
  authenticate,
}

module _ (f : F64) {W V : Type 0} (env : Environment f.Float W V) (config : Config f.Float)
    (P : W → Type 0) (kept : IsKept env P) where
  later : {E B : Type 0} (r : Result E B × W) {b : B} {w' : W} → r ≡ (ok b, w') → P r.1 → P w'
  later r e p = subst (λ x. P x.1) e p

  module _ (token : Text) (algorithm : JwtAlgorithm) (context : SynchronizationContext)
      {caller : AuthenticatedTechnicalCaller} where
    refreshed_with-Vouched :
        (result : CacheVerification → Result AuthenticationError AuthenticatedTechnicalCaller)
        (w w' : W)
        → P w
        → ((v : CacheVerification) → result v ≡ ok caller → Accepts caller v)
        → refreshed_with f env config result token algorithm context w ≡ (ok caller, w')
        → Vouched f env config P token algorithm context caller
    refreshed_with-Vouched result w w' p sound h =
        verify_current-Vouched f env config token algorithm context P kept w p
          (sound (verify_current f env config token algorithm context w).0 (ap (λ r. r.0) h))

    after_success :
        (w w' : W)
        → P w
        → refreshed_with f env config refreshed_verification_result token algorithm context w
          ≡ (ok caller, w')
        → Vouched f env config P token algorithm context caller
    after_success w w' p h =
        refreshed_with-Vouched refreshed_verification_result w w' p
          (λ v e. inl ((refreshed_verification_result-ok_iff v caller).0 e)) h

    after_failure :
        (w w' : W)
        → P w
        → refreshed_with f env config stale_cache_fallback_result token algorithm context w
          ≡ (ok caller, w')
        → Vouched f env config P token algorithm context caller
    after_failure w w' p h =
        refreshed_with-Vouched stale_cache_fallback_result w w' p
          (λ v e. (stale_cache_fallback_result-ok_iff v caller).0 e) h

    or_stale-Vouched :
        (r : Result AuthenticationError (Unit {0}) × W) (w' : W)
        → P r.1
        → or_stale f env config token algorithm context r ≡ (ok caller, w')
        → Vouched f env config P token algorithm context caller
    or_stale-Vouched (ok _, w) w' p h = after_success w w' p h
    or_stale-Vouched (err cancelled, w) w' p h = cc
    or_stale-Vouched (err rejected, w) w' p h = after_failure w w' p h
    or_stale-Vouched (err forbidden, w) w' p h = after_failure w w' p h
    or_stale-Vouched (err verifier_unavailable, w) w' p h = after_failure w w' p h

    or_rejected-Vouched :
        (r : Result AuthenticationError (Unit {0}) × W) (w' : W)
        → P r.1
        → or_rejected f env config token algorithm context r ≡ (ok caller, w')
        → Vouched f env config P token algorithm context caller
    or_rejected-Vouched (ok _, w) w' p h = after_success w w' p h
    or_rejected-Vouched (err cancelled, w) w' p h = cc
    or_rejected-Vouched (err rejected, w) w' p h = cc
    or_rejected-Vouched (err forbidden, w) w' p h = cc
    or_rejected-Vouched (err verifier_unavailable, w) w' p h = cc

    by_refresh :
        (observed : ℕ) (w w' : W)
        → P w
        → refresh_then_verify_fresh f env config token algorithm context observed w
          ≡ (ok caller, w')
        → Vouched f env config P token algorithm context caller
    unfolding refresh_then_verify_fresh
    by_refresh observed w w' p h =
        let (_, w1, e1, h1) =
          proceed-eq-ok
            (λ _. refreshed_with f env config refreshed_verification_result token algorithm context)
            (refresh f env config context observed w) h in
        after_success w1 w' (later _ e1 (refresh-Keeps f env config P kept context observed w p)) h1

    by_fallback :
        (observed : ℕ) (w w' : W)
        → P w
        → refresh_or_stale_fallback f env config token algorithm context observed w
          ≡ (ok caller, w')
        → Vouched f env config P token algorithm context caller
    unfolding refresh_or_stale_fallback
    by_fallback observed w w' p h =
        or_stale-Vouched (refresh f env config context observed w) w'
          (refresh-Keeps f env config P kept context observed w p) h

    by_rotation :
        (observed : ℕ) (w w' : W)
        → P w
        → refresh_after_proven_signature_invalid f env config token algorithm context observed w
          ≡ (ok caller, w')
        → Vouched f env config P token algorithm context caller
    unfolding refresh_after_proven_signature_invalid
    by_rotation observed w w' p h =
        or_rejected-Vouched (refresh f env config context observed w) w'
          (refresh-Keeps f env config P kept context observed w p) h

    on_verification-Vouched :
        (observed : ℕ) (v : CacheVerification) (w w' : W)
        → P w
        → (Accepts caller v → Vouched f env config P token algorithm context caller)
        → on_verification f env config token algorithm context observed v w ≡ (ok caller, w')
        → Vouched f env config P token algorithm context caller
    on_verification-Vouched observed CacheVerification.cancelled w w' p k h = cc
    on_verification-Vouched observed cold_or_expired w w' p k h = by_refresh observed w w' p h
    on_verification-Vouched observed (stale (valid c)) w w' p k h = by_fallback observed w w' p h
    on_verification-Vouched observed (stale Verification.rejected) w w' p k h = cc
    on_verification-Vouched observed (stale Verification.verifier_unavailable) w w' p k h = cc
    on_verification-Vouched observed (stale Verification.forbidden) w w' p k h =
        by_fallback observed w w' p h
    on_verification-Vouched observed (stale no_candidate) w w' p k h = by_fallback observed w w' p h
    on_verification-Vouched observed (stale signature_invalid) w w' p k h =
        by_rotation observed w w' p h
    on_verification-Vouched observed (fresh (valid c)) w w' p k h = k (inl cc)
    on_verification-Vouched observed (fresh Verification.rejected) w w' p k h = cc
    on_verification-Vouched observed (fresh Verification.verifier_unavailable) w w' p k h = cc
    on_verification-Vouched observed (fresh Verification.forbidden) w w' p k h = cc
    on_verification-Vouched observed (fresh no_candidate) w w' p k h = by_refresh observed w w' p h
    on_verification-Vouched observed (fresh signature_invalid) w w' p k h =
        by_rotation observed w w' p h

    verified_by_class-Vouched :
        (observation : ℕ × CacheClassification) (w w' : W)
        → P w
        → verified_by_class f env config token algorithm context observation w ≡ (ok caller, w')
        → Vouched f env config P token algorithm context caller
    verified_by_class-Vouched (observed, fresh) w w' p h =
        on_verification-Vouched observed (verify_current f env config token algorithm context w).0 _
          w' (verify_current-Keeps f env config P kept context token algorithm w p)
          (verify_current-Vouched f env config token algorithm context P kept w p) h
    verified_by_class-Vouched (observed, stale) w w' p h = by_fallback observed w w' p h
    verified_by_class-Vouched (observed, cold_or_expired) w w' p h = by_refresh observed w w' p h

  length_of_guard :
      (b : Bool) (e : AuthenticationError) (u : Unit {0}) (w w' : W)
      → guard b e w ≡ (ok u, w')
      → b ≡ true
  length_of_guard true e u w w' h = refl
  length_of_guard false e u w w' h = cc

  given : (raw : Option Text) (token : Text) → ok_or rejected raw ≡ ok token → raw ≡ some token
  given none token h = cc
  given (some t) token h = cc

  abbrev Attempt : Type 0
  Attempt = Io W AuthenticationError AuthenticatedTechnicalCaller

  -- What is left of an attempt after its header was read, after its length was checked, and after
  -- its token was taken.
  abbrev classifying : Text → SynchronizationContext → JwtAlgorithm → Attempt
  classifying token context algorithm =
      classify_cache f env config context >>= verified_by_class f env config token algorithm context

  abbrev reading : Text → SynchronizationContext → Attempt
  reading token context =
      lift (preflight_header (env.decode_header token) config.algorithms) >>= λ algorithm.
      check f env config context >> classifying token context algorithm

  abbrev measuring : SynchronizationContext → Text → Attempt
  measuring context token =
      guard (leb (length token) max_token_bytes) rejected
      >> (check f env config context >> reading token context)

  read-Vouched :
      (token : Text) (context : SynchronizationContext) (w w' : W)
      (caller : AuthenticatedTechnicalCaller)
      → P w
      → reading token context w ≡ (ok caller, w')
      → (algorithm : JwtAlgorithm) × IsAccepted
          (env.decode_header token)
          config.algorithms
          algorithm
        × Vouched f env config P token algorithm context caller
  read-Vouched token context w w' caller p h =
      let (algorithm, w1, e1, h1) =
        proceed-eq-ok (λ a. check f env config context >> classifying token context a)
          (lift (preflight_header (env.decode_header token) config.algorithms) w) h in
      let (_, w2, e2, h2) =
        proceed-eq-ok (λ _. classifying token context algorithm) (check f env config context w1)
          h1 in
      let (observation, w3, e3, h3) =
        proceed-eq-ok (verified_by_class f env config token algorithm context)
          (classify_cache f env config context w2) h2 in
      let p1 = later _ e1 p in
      let p2 = later _ e2 (check-Keeps f env config P kept context w1 p1) in
      let p3 = later _ e3 (classify_cache-Keeps f env config P kept context w2 p2) in
      (
        algorithm,
        preflight_header-IsAccepted (env.decode_header token) config.algorithms algorithm
            (ap (λ r. r.0) e1),
        verified_by_class-Vouched token algorithm context observation w3 w' p3 h3,
      )

  -- A caller is authenticated only from a token that was given, that is not longer than the limit,
  -- whose header has no critical extension and names a configured algorithm, and that a snapshot
  -- vouches for: the cache holds it in a state of the world that has any property which the initial
  -- state has and every call to the outside keeps, by the clock's reading there it is not older than
  -- the freshness and the stale grace together, one of its candidates verifies the token's
  -- signature, and its claims were validated from a state with that property; and the caller carries
  -- that token.
  pub authenticate-Vouched :
      (raw_compact_token : Option Text) (context : SynchronizationContext) (w w' : W)
      (caller : AuthenticatedTechnicalCaller)
      → P w
      → authenticate f env config raw_compact_token context w ≡ (ok caller, w')
      → (token : Text) × (algorithm : JwtAlgorithm) × (raw_compact_token ≡ some token)
        × (leb (length token) max_token_bytes ≡ true)
        × IsAccepted (env.decode_header token) config.algorithms algorithm
        × Vouched f env config P token algorithm context caller
  unfolding authenticate
  authenticate-Vouched raw_compact_token context w w' caller p h =
      let (_, w1, e1, h1) =
        proceed-eq-ok (λ _. lift (ok_or rejected raw_compact_token) >>= measuring context)
          (check f env config context w) h in
      let (token, w2, e2, h2) =
        proceed-eq-ok (measuring context) (lift (ok_or rejected raw_compact_token) w1) h1 in
      let (u, w3, e3, h3) =
        proceed-eq-ok (λ _. check f env config context >> reading token context)
          (guard (leb (length token) max_token_bytes) rejected w2) h2 in
      let (_, w4, e4, h4) =
        proceed-eq-ok (λ _. reading token context) (check f env config context w3) h3 in
      let p1 = later _ e1 (check-Keeps f env config P kept context w p) in
      let p3 = later _ e3 (guard-Keeps P _ rejected w2 (later _ e2 p1)) in
      let p4 = later _ e4 (check-Keeps f env config P kept context w3 p3) in
      let (algorithm, header, vouched) = read-Vouched token context w4 w' caller p4 h4 in
      (
        token,
        algorithm,
        given raw_compact_token token (ap (λ r. r.0) e2),
        length_of_guard (leb (length token) max_token_bytes) rejected u w2 w3 e3,
        header,
        vouched,
      )
