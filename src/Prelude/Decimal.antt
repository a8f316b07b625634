-- ===== src/Prelude/Decimal.antt =====
-- Unsigned 64-bit integers in decimal, as the standard library prints and reads them.
use Prim.Native.Nat.{ℕ, zero, suc, ◌+◌, ◌-◌, ◌*◌, ◌/◌, ◌%◌, ◌^◌, ◌<◌}
use mathlib.Core.Path.{◌≡◌, refl, ◌∙◌}
use mathlib.Core.Bool.{Bool, true, false, ◌&&◌}
use mathlib.Core.Logic.{inl, inr}
use mathlib.Core.List.{[], ◌∷◌}
use mathlib.Core.Option.{Option, none, some}
use native.Mathlib.Omega.{arith}
use permissionsync.Prelude.Bytes.{Text}
use permissionsync.Prelude.Tests.{ltb, leb, ◌==◌, if◌then◌else◌, Bool-cases}

abbrev pub u64_end : ℕ
u64_end = 2 ^ 64

-- `u64::checked_add`.
unfoldable pub checked_add : ℕ → ℕ → Option ℕ
checked_add m n = if ltb (m + n) u64_end then some (m + n) else none

pub checked_add-some : (m n k : ℕ) → checked_add m n ≡ some k → (k ≡ m + n) × (k < u64_end)
unfolding checked_add
checked_add-some m n k h = ground arith

-- The digits of a number before those that follow, at most as many as the fuel.
unfoldable pub digits : ℕ → ℕ → Text → Text
digits zero n out = out
digits (suc fuel) n out =
    let rest = digits fuel (n / 10) ((48 + n % 10) ∷ out) in
    if ltb n 10 then (48 + n) ∷ out else rest

-- `u64::to_string`: twenty digits are enough below `2 ^ 64`.
unfoldable pub to_string : ℕ → Text
unfolding digits
to_string n = digits 20 n []

-- The digits that are left, each by a checked multiplication and addition.
unfoldable pub scan : Text → ℕ → Option ℕ
scan [] n = some n
scan (c ∷ s) n =
    let rest = scan s (n * 10 + (c - 48)) in
    if leb 48 c && (leb c 57 && ltb (n * 10 + (c - 48)) u64_end) then rest else none

unfoldable pub scan_nonempty : Text → Option ℕ
unfolding scan
scan_nonempty [] = none
scan_nonempty (c ∷ s) = scan (c ∷ s) 0

-- `str::parse::<u64>`: a plus sign may stand before the digits.
unfoldable pub parse_u64 : Text → Option ℕ
unfolding scan_nonempty
parse_u64 [] = none
parse_u64 (c ∷ s) = if c == 43 then scan_nonempty s else scan_nonempty (c ∷ s)

scan_digit : (n : ℕ) (out : Text) → n < u64_end → scan ((48 + n % 10) ∷ out) (n / 10) ≡ scan out n
unfolding scan
scan_digit n out fits = ground arith

scan_single : (n : ℕ) (out : Text) → n < 10 → scan ((48 + n) ∷ out) 0 ≡ scan out n
unfolding scan
scan_single n out small = ground arith

tenth : (fuel n : ℕ) → n < 10 ^ suc fuel → n / 10 < 10 ^ fuel
tenth fuel n h = omega arith

-- Reading a number's digits gives the number.
scan-digits :
    (fuel n : ℕ) (out : Text)
    → n < 10 ^ fuel
    → n < u64_end
    → scan (digits fuel n out) 0 ≡ scan out n
unfolding digits
scan-digits zero n out enough fits = rw (none_left n (omega arith)) refl
  where
    none_left : (n : ℕ) → n < 1 → n ≡ 0
    none_left n h = omega arith
scan-digits (suc fuel) n out enough fits = elim (Bool-cases (ltb n 10)) [
  | inl small ↦ rw small (scan_single n out (ground arith))
  | inr large ↦ rw large (
      scan-digits fuel (n / 10) ((48 + n % 10) ∷ out) (tenth fuel n enough) (ground arith)
      ∙ scan_digit n out fits)
]

-- Digits do not start with a plus sign.
abbrev Unsigned : Text → Type 0
Unsigned [] = ◌≡◌ {A = Bool} true false
Unsigned (c ∷ s) = (c == 43) ≡ false

digits-Unsigned : (fuel n : ℕ) (out : Text) → Unsigned out → Unsigned (digits fuel n out)
unfolding digits
digits-Unsigned zero n out h = h
digits-Unsigned (suc fuel) n out h = elim (Bool-cases (ltb n 10)) [
  | inl small ↦ rw small (ground arith)
  | inr large ↦ rw large (digits-Unsigned fuel (n / 10) ((48 + n % 10) ∷ out) (ground arith))
]

parse_u64-scan : (s : Text) → Unsigned s → parse_u64 s ≡ scan s 0
unfolding parse_u64 scan_nonempty
parse_u64-scan [] h = cc
parse_u64-scan (c ∷ s) h = rw h refl

first-Unsigned : (fuel n : ℕ) → Unsigned (digits (suc fuel) n [])
unfolding digits
first-Unsigned fuel n = elim (Bool-cases (ltb n 10)) [
  | inl small ↦ rw small (ground arith)
  | inr large ↦ rw large (digits-Unsigned fuel (n / 10) ((48 + n % 10) ∷ []) (ground arith))
]

parse_digits :
    (fuel n : ℕ) → n < 10 ^ suc fuel → n < u64_end → parse_u64 (digits (suc fuel) n []) ≡ some n
unfolding scan
parse_digits fuel n enough fits =
    parse_u64-scan (digits (suc fuel) n []) (first-Unsigned fuel n)
    ∙ scan-digits (suc fuel) n [] enough fits

-- A 64-bit number is read back from its decimal text.
pub parse_u64-to_string : (n : ℕ) → n < u64_end → parse_u64 (to_string n) ≡ some n
unfolding to_string
parse_u64-to_string n fits = parse_digits 19 n (omega arith) fits
