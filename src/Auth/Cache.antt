-- ===== src/Auth/Cache.antt =====
-- crates/permissionsync-auth/src/{authenticator,config,jwks}.rs: the cached snapshot, its age, and
-- the outcomes of a verification. Instants and durations are numbers of nanoseconds; the two
-- verifiers of a candidate are of the type `V` of the library.
pub mod Laws
use permissionsync.Prelude.{
  ℕ, ◌+◌, ◌-◌, ◌*◌, ◌^◌, Bool, true, false, ◌&&◌, List, Option, none, some, ltb, leb, if◌then◌else◌,
  min, Result, ok, err, Text, text,
}
use permissionsync.Auth.Types.{AuthenticationError, AuthenticatedTechnicalCaller}

pub data JwtAlgorithm : Type 0 where
  rs256 rs384 rs512 ps256 ps384 ps512 es256 es384 es512 ed_dsa : JwtAlgorithm

unfoldable pub name : JwtAlgorithm → Text
name rs256 = text "RS256"
name rs384 = text "RS384"
name rs512 = text "RS512"
name ps256 = text "PS256"
name ps384 = text "PS384"
name ps512 = text "PS512"
name es256 = text "ES256"
name es384 = text "ES384"
name es512 = text "ES512"
name ed_dsa = text "EdDSA"

pub record VerificationCachePolicy : Type 0 where
  pub freshness : ℕ
  pub stale_if_error : ℕ

pub record Candidate (V : Type 0) : Type 0 where
  pub kid : Option Text
  pub algorithm : JwtAlgorithm
  pub with_kid : V
  pub without_kid : V

pub record Snapshot (V : Type 0) : Type 0 where
  pub candidates : List (Candidate V)
  pub acquired : ℕ
  pub generation : ℕ

pub data CacheClassification : Type 0 where
  fresh stale cold_or_expired : CacheClassification

pub data TrustedVerifierState : Type 0 where
  usable unusable : TrustedVerifierState

abbrev pub trusted_verifier_state : CacheClassification → TrustedVerifierState
trusted_verifier_state fresh = usable
trusted_verifier_state stale = usable
trusted_verifier_state cold_or_expired = unusable

pub data Verification : Type 0 where
  valid : AuthenticatedTechnicalCaller → Verification
  rejected forbidden verifier_unavailable no_candidate signature_invalid : Verification

pub data CacheVerification : Type 0 where
  fresh stale : Verification → CacheVerification
  cold_or_expired cancelled : CacheVerification

-- `Duration::MAX` in nanoseconds, `checked_add` and `Instant::checked_duration_since`.
abbrev pub max_duration : ℕ
max_duration = 2 ^ 64 * 1000000000 - 1

abbrev pub checked_add : ℕ → ℕ → Option ℕ
checked_add a b = if leb (a + b) max_duration then some (a + b) else none

unfoldable pub age : {V : Type 0} → Snapshot V → ℕ → Option ℕ
age snapshot now = if leb snapshot.acquired now then some (now - snapshot.acquired) else none

-- `is_some_and(|limit| age > policy.freshness() && age <= limit)`
abbrev pub is_between : ℕ → ℕ → Option ℕ → Bool
is_between age low none = false
is_between age low (some limit) = ltb low age && leb age limit

unfoldable pub within_stale : ℕ → VerificationCachePolicy → Bool
within_stale age policy =
    is_between age policy.freshness (checked_add policy.freshness policy.stale_if_error)

-- The `match snapshot.age(now)` of `classify_cache` and `verify_current`.
unfoldable pub classify : VerificationCachePolicy → Option ℕ → CacheClassification
unfolding within_stale
classify policy none = cold_or_expired
classify policy (some age) =
    if leb age policy.freshness
    then fresh
    else if within_stale age policy
    then stale
    else cold_or_expired

-- `age.is_some_and(|age| age <= freshness)`
abbrev pub is_fresh : VerificationCachePolicy → Option ℕ → Bool
is_fresh policy none = false
is_fresh policy (some age) = leb age policy.freshness

-- The pairing at the end of `verify_current`.
abbrev pub labelled : CacheClassification → Verification → CacheVerification
labelled fresh v = fresh v
labelled stale v = stale v
labelled cold_or_expired v = cold_or_expired

abbrev Answer : Type 0
Answer = Result AuthenticationError AuthenticatedTechnicalCaller

unfoldable pub verification_result : Verification → Answer
verification_result (valid value) = ok value
verification_result forbidden = err AuthenticationError.forbidden
verification_result verifier_unavailable = err AuthenticationError.verifier_unavailable
verification_result rejected = err AuthenticationError.rejected
verification_result no_candidate = err AuthenticationError.rejected
verification_result signature_invalid = err AuthenticationError.rejected

unfoldable pub stale_refreshed_result : Verification → Answer
unfolding verification_result
stale_refreshed_result (valid value) = err AuthenticationError.verifier_unavailable
stale_refreshed_result forbidden = err AuthenticationError.verifier_unavailable
stale_refreshed_result verifier_unavailable = verification_result verifier_unavailable
stale_refreshed_result rejected = verification_result rejected
stale_refreshed_result no_candidate = verification_result no_candidate
stale_refreshed_result signature_invalid = verification_result signature_invalid

unfoldable pub refreshed_verification_result : CacheVerification → Answer
unfolding verification_result stale_refreshed_result
refreshed_verification_result (fresh verification) = verification_result verification
refreshed_verification_result (stale verification) = stale_refreshed_result verification
refreshed_verification_result cold_or_expired = err AuthenticationError.verifier_unavailable
refreshed_verification_result cancelled = err AuthenticationError.cancelled

unfoldable pub stale_fallback_result : Verification → Answer
unfolding verification_result
stale_fallback_result no_candidate = err AuthenticationError.verifier_unavailable
stale_fallback_result (valid value) = verification_result (valid value)
stale_fallback_result forbidden = verification_result forbidden
stale_fallback_result verifier_unavailable = verification_result verifier_unavailable
stale_fallback_result rejected = verification_result rejected
stale_fallback_result signature_invalid = verification_result signature_invalid

unfoldable pub stale_cache_fallback_result : CacheVerification → Answer
unfolding verification_result stale_fallback_result
stale_cache_fallback_result (fresh verification) = verification_result verification
stale_cache_fallback_result (stale verification) = stale_fallback_result verification
stale_cache_fallback_result cold_or_expired = err AuthenticationError.verifier_unavailable
stale_cache_fallback_result cancelled = err AuthenticationError.cancelled

-- `saturating_add` of a `u64`.
abbrev pub next_generation : ℕ → ℕ
next_generation generation = min (generation + 1) (2 ^ 64 - 1)

abbrev pub generation_of : {V : Type 0} → Option (Snapshot V) → ℕ
generation_of none = 0
generation_of (some current) = current.generation
