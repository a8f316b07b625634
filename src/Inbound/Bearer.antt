-- ===== src/Inbound/Bearer.antt =====
-- crates/permissionsync-inbound-http/src/lib.rs: the bearer credential of the header fields.
pub mod Grammar
use permissionsync.Prelude.{
  ℕ, zero, suc, ◌+◌, Bool, true, false, not, ◌&&◌, ◌||◌, List, [], ◌∷◌, ◌++◌, Option, none, some,
  leb, ◌==◌, if◌then◌else◌, length, all, Text, text, text_eq, drop,
}
use permissionsync.Prelude.Bytes.{eq_ignore_ascii_case}

pub record HeaderField : Type 0 where
  pub name : Text
  pub value : Text

-- `&t[..n]`.
unfoldable pub take : ℕ → Text → Text
take zero t = []
take (suc n) [] = []
take (suc n) (b ∷ t) = b ∷ take n t

-- The only `Authorization` value; a second one ends the search without any.
unfoldable pub authorization : Option Text → List HeaderField → Option Text
unfolding eq_ignore_ascii_case
authorization found [] = found
authorization none (field ∷ fields) =
    if eq_ignore_ascii_case field.name (text "authorization")
    then authorization (some field.value) fields
    else authorization none fields
authorization (some value) (field ∷ fields) =
    if eq_ignore_ascii_case field.name (text "authorization")
    then none
    else authorization (some value) fields

unfoldable pub skip_spaces : Text → Text
skip_spaces [] = []
skip_spaces (b ∷ t) = let rest = skip_spaces t in if b == 32 then rest else b ∷ t

unfoldable pub is_b64token_non_padding_character : ℕ → Bool
is_b64token_non_padding_character b =
    leb 48 b && leb b 57
    || (leb 65 b && leb b 90
        || (leb 97 b && leb b 122
            || (b == 45 || (b == 46 || (b == 95 || (b == 126 || (b == 43 || b == 47)))))))

-- The bytes before the first `=`, and the rest.
unfoldable pub before_padding : Text → Text
before_padding [] = []
before_padding (b ∷ t) = let rest = before_padding t in if b == 61 then [] else b ∷ rest

unfoldable pub from_padding : Text → Text
from_padding [] = []
from_padding (b ∷ t) = let rest = from_padding t in if b == 61 then b ∷ t else rest

abbrev pub is_nonempty : Text → Bool
is_nonempty [] = false
is_nonempty (b ∷ t) = true

unfoldable pub is_b64token : Text → Bool
unfolding before_padding from_padding is_b64token_non_padding_character
is_b64token credential =
    is_nonempty (before_padding credential)
    && (all is_b64token_non_padding_character (before_padding credential)
        && all (λ b. b == 61) (from_padding credential))

-- What follows the scheme: at least one space, and a token.
unfoldable pub credential_of : Text → Option Text
unfolding skip_spaces is_b64token
credential_of rest =
    if length (skip_spaces rest) == length rest || not (is_nonempty (skip_spaces rest))
    then none
    else if is_b64token (skip_spaces rest)
    then some (skip_spaces rest)
    else none

unfoldable pub bearer_of : Option Text → Option Text
unfolding eq_ignore_ascii_case take credential_of
bearer_of none = none
bearer_of (some value) =
    if leb (length value) 6 || not (eq_ignore_ascii_case (take 6 value) (text "bearer"))
    then none
    else credential_of (drop 6 value)

unfoldable pub extract_bearer : List HeaderField → Option Text
unfolding authorization bearer_of
extract_bearer headers = bearer_of (authorization none headers)
