-- ===== src/Auth/Preflight.antt =====
-- crates/permissionsync-auth/src/jwks.rs: what is read of a token's header before its signature is
-- verified. The decoding of the header is the JWT library's.
use permissionsync.Prelude.{
  ℕ, ◌≡◌, refl, sym, ap, Bool, true, false, not, ◌||◌, List, Mem, Option, none, some, leb, length,
  find, find-All, All-of_mem, Result, ok, err, ok_or, ◌>>=◌, ◌>>◌, guard, Text, text, text_eq,
  text_eq_iff,
}
use permissionsync.Auth.Types.{AuthenticationError, rejected}
use permissionsync.Auth.Claims.{Value, as_str}
use permissionsync.Auth.Cache.{JwtAlgorithm, name}

abbrev pub max_text_bytes : ℕ
max_text_bytes = 4096

-- The claims of the header by their names, and its algorithm.
pub record JwsHeader (F : Type 0) : Type 0 where
  pub claim : Text → Option (Value F)
  pub algorithm : Option Text

abbrev pub is_some : {A : Type 0} → Option A → Bool
is_some none = false
is_some (some a) = true

-- The answer of `decode_header`: an error, or a header that may not be a JWS header.
abbrev pub Decoded : Type 0 → Type 0
Decoded F = Option (Option (JwsHeader F))

abbrev jws_header : {F : Type 0} → Decoded F → Result AuthenticationError (JwsHeader F)
jws_header none = err rejected
jws_header (some none) = err rejected
jws_header (some (some header)) = ok header

-- Which claims a header has.
abbrev pub header_claims : {F : Type 0} → JwsHeader F → Text → Bool
header_claims header name = is_some (header.claim name)

-- `header.claim("crit").is_some() || header.claim("b64").is_some()`
abbrev pub is_prohibited : (Text → Bool) → Bool
is_prohibited has_claim = has_claim (text "crit") || has_claim (text "b64")

abbrev bounded : Option Text → Result AuthenticationError (Unit {0})
bounded none = err rejected
bounded (some kid) = guard (leb (length kid) max_text_bytes) rejected

abbrev check_kid : {F : Type 0} → Option (Value F) → Result AuthenticationError (Unit {0})
check_kid none = ok tt
check_kid (some kid) = bounded (as_str kid)

abbrev configured : List JwtAlgorithm → Option Text → Result AuthenticationError JwtAlgorithm
configured allowed none = err rejected
configured allowed (some algorithm) =
    ok_or rejected (find (λ a. text_eq (name a) algorithm) allowed)

unfoldable pub preflight_header :
    {F : Type 0} → Decoded F → List JwtAlgorithm → Result AuthenticationError JwtAlgorithm
unfolding name
preflight_header decoded allowed = do
  header ← jws_header decoded
  guard (not (is_prohibited (header_claims header))) rejected
  check_kid (header.claim (text "kid"))
  configured allowed header.algorithm

-- What an accepted header has.
pub record IsAccepted {F : Type 0} (decoded : Decoded F) (allowed : List JwtAlgorithm)
    (algorithm : JwtAlgorithm) : Type 0 where
  pub header : JwsHeader F
  pub is_jws : decoded ≡ some (some header)
  pub plain : is_prohibited (header_claims header) ≡ false
  pub is_named : header.algorithm ≡ some (name algorithm)
  pub is_allowed : Mem algorithm allowed

ok_or-eq-ok : (o : Option JwtAlgorithm) {a : JwtAlgorithm} → ok_or rejected o ≡ ok a → o ≡ some a
ok_or-eq-ok none h = cc
ok_or-eq-ok (some a) h = cc

configured-eq-ok :
    (allowed : List JwtAlgorithm) (named : Option Text) (algorithm : JwtAlgorithm)
    → configured allowed named ≡ ok algorithm
    → (named ≡ some (name algorithm)) × Mem algorithm allowed
configured-eq-ok allowed none algorithm h = cc
configured-eq-ok allowed (some t) algorithm h =
    let (m, same) =
      find-All (λ a. Mem a allowed) (λ a. text_eq (name a) t) allowed algorithm
        (All-of_mem (λ a. Mem a allowed) allowed (λ a m. m))
        (ok_or-eq-ok (find (λ a. text_eq (name a) t) allowed) h) in
    (ap some (sym ((text_eq_iff (name algorithm) t).0 same)), m)

chained :
    (b : Bool) (kid : Result AuthenticationError (Unit {0}))
    (r : Result AuthenticationError JwtAlgorithm) {a : JwtAlgorithm}
    → (guard (not b) rejected >> (kid >> r)) ≡ ok a
    → (b ≡ false) × (r ≡ ok a)
chained true kid r h = cc
chained false (err e) r h = cc
chained false (ok u) r h = (refl, h)

pub preflight_header-IsAccepted :
    {F : Type 0} (decoded : Decoded F) (allowed : List JwtAlgorithm) (algorithm : JwtAlgorithm)
    → preflight_header decoded allowed ≡ ok algorithm
    → IsAccepted decoded allowed algorithm
unfolding preflight_header
preflight_header-IsAccepted none allowed algorithm h = cc
preflight_header-IsAccepted (some none) allowed algorithm h = cc
preflight_header-IsAccepted (some (some header)) allowed algorithm h =
    let (plain, named) =
      chained (is_prohibited (header_claims header)) (check_kid (header.claim (text "kid")))
        (configured allowed header.algorithm) h in
    let (is_named, is_allowed) = configured-eq-ok allowed header.algorithm algorithm named in
    record {
      header = header;
      is_jws = refl;
      plain = plain;
      is_named = is_named;
      is_allowed = is_allowed;
    }
