-- ===== src/Domain/Target.antt =====
-- crates/permissionsync-core/src/target.rs: the grammar of logical targets, over bytes.
pub mod Grammar
use permissionsync.Prelude.{
  ℕ, ◌+◌, ◌≤◌, ◌<◌, ◌≡◌, refl, ◌↔◌, ◌⊎◌, inl, inr, Bool, true, false, ◌&&◌, ◌||◌, List, [], ◌∷◌,
  arith, leb, ltb, ◌==◌, if◌then◌else◌, length, all, All, Result, ok, err, Text, text,
}

-- The field is private in the source: `try_from` alone makes a target.
pub record LogicalTarget : Type 0 where
  pub value : Text

pub data InvalidLogicalTarget : Type 0 where
  invalid_logical_target : InvalidLogicalTarget

unfoldable pub is_edge_character : ℕ → Bool
is_edge_character c = leb b'a' c && leb c b'z' || leb b'0' c && leb c b'9'

unfoldable pub is_inner_character : ℕ → Bool
unfolding is_edge_character
is_inner_character c = is_edge_character c || (c == b'.' || (c == b'_' || c == b'-'))

-- `bytes[bytes.len() - 1]`, for a list with the given first byte.
pub last : ℕ → Text → ℕ
last c [] = c
last c (d ∷ bytes) = last d bytes

-- `bytes[1..bytes.len() - 1]`, without its first byte.
pub inner : Text → Text
inner [] = []
inner (c ∷ []) = []
inner (c ∷ d ∷ bytes) = c ∷ inner (d ∷ bytes)

pub check_grammar : Text → Bool
unfolding is_edge_character is_inner_character last inner
check_grammar [] = false
check_grammar (c ∷ bytes) =
    if ltb 64 (length (c ∷ bytes))
    then false
    else if is_edge_character c && is_edge_character (last c bytes)
    then if ltb 2 (length (c ∷ bytes)) then all is_inner_character (inner bytes) else true
    else false

unfoldable pub try_from : Text → Result InvalidLogicalTarget LogicalTarget
unfolding check_grammar
try_from value =
    if check_grammar value then ok (record { value = value }) else err invalid_logical_target
