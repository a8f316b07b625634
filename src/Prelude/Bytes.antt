-- ===== src/Prelude/Bytes.antt =====
-- Text as the list of its UTF-8 bytes, which is what the source compares, splits and measures.
use Prim.Native.Nat.{ℕ, zero, suc, ◌+◌}
use Prim.Native.Char.{code}
use Prim.Native.String.{String}
use mathlib.Core.Path.{◌≡◌, refl, ap₂}
use mathlib.Core.Logic.{◌↔◌}
use mathlib.Core.Bool.{Bool, true, false, ◌&&◌}
use mathlib.Core.List.{List, [], ◌∷◌, ◌++◌}
use native.Mathlib.Omega.{arith}
use permissionsync.Prelude.Lists.{length}
use permissionsync.Prelude.Tests.{leb, ◌==◌, if◌then◌else◌, ==_iff}

abbrev pub Text : Type 0
Text = List ℕ

-- The bytes of an ASCII literal.
abbrev pub text : String → Text
text String.[] = []
text (String.◌∷◌ c s) = code c ∷ text s

abbrev pub text_eq : Text → Text → Bool
text_eq [] [] = true
text_eq (a ∷ s) (b ∷ t) = a == b && text_eq s t
text_eq [] (b ∷ t) = false
text_eq (a ∷ s) [] = false

pub text_eq_iff : (s t : Text) → (text_eq s t ≡ true) ↔ (s ≡ t)
text_eq_iff [] [] = ground arith
text_eq_iff (a ∷ s) (b ∷ t) = ground (arith, text_eq_iff s t)
text_eq_iff [] (b ∷ t) = ground arith
text_eq_iff (a ∷ s) [] = ground arith

pub text_eq_self : (s : Text) → text_eq s s ≡ true
text_eq_self s = (text_eq_iff s s).1 refl

-- `str::starts_with`, the prefix first.
unfoldable pub starts_with : Text → Text → Bool
starts_with [] t = true
starts_with (a ∷ p) [] = false
starts_with (a ∷ p) (b ∷ t) = a == b && starts_with p t

-- `&t[n..]`.
abbrev pub drop : ℕ → Text → Text
drop zero t = t
drop (suc n) [] = []
drop (suc n) (b ∷ t) = drop n t

-- A text without the bytes at its start, or at its end, that pass the test.
unfoldable pub trim_start : (ℕ → Bool) → Text → Text
trim_start p [] = []
trim_start p (b ∷ t) = let rest = trim_start p t in if p b then rest else b ∷ t

unfoldable pub trim_end : (ℕ → Bool) → Text → Text
trim_end p [] = []
trim_end p (b ∷ t) = elim (trim_end p t) [ [] ↦ if p b then [] else b ∷ [] | c ∷ s ↦ b ∷ c ∷ s ]

-- Equality up to the case of ASCII letters.
abbrev pub lowercase : ℕ → ℕ
lowercase b = if leb 65 b && leb b 90 then b + 32 else b

unfoldable pub eq_ignore_ascii_case : Text → Text → Bool
eq_ignore_ascii_case [] [] = true
eq_ignore_ascii_case (a ∷ s) (b ∷ t) = lowercase a == lowercase b && eq_ignore_ascii_case s t
eq_ignore_ascii_case [] (b ∷ t) = false
eq_ignore_ascii_case (a ∷ s) [] = false

-- The pieces so far joined by a byte to the next ones.
abbrev pub grow : ℕ → List Text → List Text
grow b [] = (b ∷ []) ∷ []
grow b (piece ∷ pieces) = (b ∷ piece) ∷ pieces

-- `str::split` at one byte: always at least one piece, and none of them has the byte.
unfoldable pub split : ℕ → Text → List Text
split at [] = [] ∷ []
split at (b ∷ t) = let rest = split at t in if b == at then [] ∷ rest else grow b rest

-- The pieces with the byte between them.
pub join : ℕ → List Text → Text
join at [] = []
join at (piece ∷ []) = piece
join at (piece ∷ next ∷ pieces) = piece ++ at ∷ join at (next ∷ pieces)

pub starts_with-drop : (p t : Text) → starts_with p t ≡ true → p ++ drop (length p) t ≡ t
unfolding starts_with
starts_with-drop [] t h = refl
starts_with-drop (a ∷ p) [] h = cc
starts_with-drop (a ∷ p) (b ∷ t) h =
    ap₂ ◌∷◌ ((==_iff a b).0 (ground arith)) (starts_with-drop p t (ground arith))

pub starts_with-append : (p t : Text) → starts_with p (p ++ t) ≡ true
unfolding starts_with
starts_with-append [] t = refl
starts_with-append (a ∷ p) t = ground (arith, starts_with-append p t)

pub drop-append : (p t : Text) → drop (length p) (p ++ t) ≡ t
drop-append [] t = refl
drop-append (a ∷ p) t = drop-append p t
