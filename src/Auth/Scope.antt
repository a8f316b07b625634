-- ===== src/Auth/Scope.antt =====
-- crates/permissionsync-auth/src/claims.rs: the scope claim and the target that it selects.
pub mod Laws
use permissionsync.Prelude.{
  ℕ, Bool, true, false, ◌&&◌, ◌||◌, List, [], ◌∷◌, Option, none, some, leb, ◌==◌, if◌then◌else◌,
  all, filter, length, Result, ok, err, map_err, map_ok, Text, text,
}
use permissionsync.Prelude.Bytes.{starts_with, drop, split}
use permissionsync.Domain.Target.{LogicalTarget, try_from}
use permissionsync.Auth.Types.{
  AuthenticationError, rejected, forbidden, TargetSelection, no_target, selected,
}

-- `matches!(*byte, 0x21 | 0x23..=0x5b | 0x5d..=0x7e)`
unfoldable pub is_scope_byte : ℕ → Bool
is_scope_byte b = b == 0x21 || (leb 0x23 b && leb b 0x5b || leb 0x5d b && leb b 0x7e)

unfoldable pub valid_scope_token : Text → Bool
unfolding is_scope_byte
valid_scope_token [] = false
valid_scope_token (b ∷ token) = all is_scope_byte (b ∷ token)

abbrev pub scope_prefix : Text
scope_prefix = text "permissionsync:"

-- The claim's value is a string here; `none` is a scope that is absent or empty.
unfoldable pub parse_scope_text : Text → Result AuthenticationError (Option (List Text))
parse_scope_text [] = ok none
parse_scope_text (b ∷ scope) =
    if all valid_scope_token (split b' ' (b ∷ scope))
    then ok (some (split b' ' (b ∷ scope)))
    else err rejected

pub select_scopes : List Text → Result AuthenticationError TargetSelection
unfolding try_from
select_scopes [] = ok no_target
select_scopes (scope ∷ []) =
    map_ok selected (map_err (λ _. forbidden) (try_from (drop (length scope_prefix) scope)))
select_scopes (_ ∷ _ ∷ _) = err forbidden

unfoldable pub select_target : Option (List Text) → Result AuthenticationError TargetSelection
unfolding select_scopes
select_target none = ok no_target
select_target (some tokens) = select_scopes (filter (starts_with scope_prefix) tokens)
