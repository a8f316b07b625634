-- ===== src/Auth/Cache/Laws.antt =====
-- crates/permissionsync-auth/src/authenticator.rs: the age classes of a snapshot, and which
-- verifications a caller may pass with.
use permissionsync.Prelude.{
  ℕ, ◌+◌, ◌≤◌, ◌<◌, Option, none, some, ◌↔◌, ◌⊎◌, ◌≡◌, ◌≢◌, refl, ap, inl, inr, ok, arith,
}
use permissionsync.Auth.Types.{AuthenticatedTechnicalCaller}
use permissionsync.Auth.Cache.{
  VerificationCachePolicy, fresh, stale, cold_or_expired, Verification, valid, CacheVerification,
  max_duration, within_stale, classify, verification_result, refreshed_verification_result,
  stale_cache_fallback_result,
}

-- Under a policy that the configuration accepts, with a sum of the two durations that does not
-- overflow, material of a known age is fresh up to and including the freshness, stale from there up
-- to and including the grace beyond it, and expired after that.
pub classify_iff :
    (policy : VerificationCachePolicy) (a : ℕ)
    → policy.freshness + policy.stale_if_error ≤ max_duration
    → ((classify policy (some a) ≡ fresh) ↔ (a ≤ policy.freshness))
      × ((classify policy (some a) ≡ stale)
          ↔ ((policy.freshness < a) × (a ≤ policy.freshness + policy.stale_if_error)))
      × ((classify policy (some a) ≡ cold_or_expired)
          ↔ (policy.freshness + policy.stale_if_error < a))
unfolding classify within_stale
classify_iff policy a h = ground arith

-- Without the hypothesis: whatever is not expired has a known age within the two durations.
pub classify-bounded :
    (policy : VerificationCachePolicy) (o : Option ℕ)
    → classify policy o ≢ cold_or_expired
    → (a : ℕ) × (o ≡ some a) × (a ≤ policy.freshness + policy.stale_if_error)
unfolding classify within_stale
classify-bounded policy none h = absurd (h refl)
classify-bounded policy (some a) h = (a, refl, ground arith)

abbrev pub Accepts : AuthenticatedTechnicalCaller → CacheVerification → Type 0
Accepts caller v = (v ≡ fresh (valid caller)) ⊎ (v ≡ stale (valid caller))

verification_result-eq-ok :
    (v : Verification) (caller : AuthenticatedTechnicalCaller)
    → verification_result v ≡ ok caller
    → v ≡ valid caller
unfolding verification_result
verification_result-eq-ok (valid c) caller h = cc
verification_result-eq-ok _ caller h = cc

refreshed_only_fresh :
    (v : CacheVerification) (caller : AuthenticatedTechnicalCaller)
    → refreshed_verification_result v ≡ ok caller
    → v ≡ fresh (valid caller)
unfolding refreshed_verification_result verification_result
refreshed_only_fresh (fresh v) caller h = ap fresh (verification_result-eq-ok v caller h)
refreshed_only_fresh (stale (valid c)) caller h = cc
refreshed_only_fresh (stale _) caller h = cc
refreshed_only_fresh _ caller h = cc

stale_fallback_only_valid :
    (v : CacheVerification) (caller : AuthenticatedTechnicalCaller)
    → stale_cache_fallback_result v ≡ ok caller
    → Accepts caller v
unfolding stale_cache_fallback_result verification_result
stale_fallback_only_valid (fresh v) caller h = inl (ap fresh (verification_result-eq-ok v caller h))
stale_fallback_only_valid (stale (valid c)) caller h = inr cc
stale_fallback_only_valid (stale _) caller h = cc
stale_fallback_only_valid _ caller h = cc

-- After a successful refresh, a caller passes exactly if the verification was against a fresh
-- snapshot and was valid: a stale one never passes then.
pub refreshed_verification_result-ok_iff :
    (v : CacheVerification) (caller : AuthenticatedTechnicalCaller)
    → (refreshed_verification_result v ≡ ok caller) ↔ (v ≡ fresh (valid caller))
unfolding refreshed_verification_result verification_result
refreshed_verification_result-ok_iff v caller = (refreshed_only_fresh v caller, λ h. rw h)

-- After a failed refresh, a stale snapshot may vouch for a caller too.
pub stale_cache_fallback_result-ok_iff :
    (v : CacheVerification) (caller : AuthenticatedTechnicalCaller)
    → (stale_cache_fallback_result v ≡ ok caller) ↔ Accepts caller v
unfolding stale_cache_fallback_result verification_result
stale_cache_fallback_result-ok_iff v caller =
    (stale_fallback_only_valid v caller, λ h. elim h [ inl e ↦ rw e | inr e ↦ rw e ])
