-- ===== src/Prelude/Lists.antt =====
-- Lists measured and searched with Boolean tests.
use Prim.Native.Nat.{ℕ, suc, ◌+◌, ◌≤◌}
use mathlib.Core.Path.{◌≡◌, refl, sym, ap, subst, ◌∙◌}
use mathlib.Core.Bool.{Bool, true, false, not, ◌&&◌, ◌||◌}
use mathlib.Core.Logic.{◌↔◌, inl, inr}
use mathlib.Core.List
use mathlib.Core.Logic.Or
use mathlib.Core.Bool.{Bool-discrete, Bool-set}
use mathlib.Core.List.{
  List, [], ◌∷◌, ◌++◌, map, Mem, mem-cons, mem-cons_self, not-mem-nil, Perm, perm_middle,
  append_assoc, perm_append_comm,
}
use mathlib.Core.List.Perm
use mathlib.Core.Option.{Option, none, some}
use native.Mathlib.Omega.{arith}
use native.Mathlib.Bridge.{from_ℕ}
use permissionsync.Prelude.Tests.{if◌then◌else◌, ◌==◌, ==_iff, Bool-cases}

module _ {ℓ} {A : Type ℓ} where
  abbrev pub length : List A → ℕ
  length [] = 0
  length (x ∷ xs) = suc (length xs)

  abbrev pub filter : (A → Bool) → List A → List A
  filter p [] = []
  filter p (x ∷ xs) = if p x then x ∷ filter p xs else filter p xs

  -- The first element that passes the test.
  abbrev pub find : (A → Bool) → List A → Option A
  find p [] = none
  find p (x ∷ xs) = if p x then some x else find p xs

  abbrev pub all : (A → Bool) → List A → Bool
  all p [] = true
  all p (x ∷ xs) = p x && all p xs

  abbrev pub any : (A → Bool) → List A → Bool
  any p [] = false
  any p (x ∷ xs) = p x || any p xs

  pub length-append : (xs ys : List A) → length (xs ++ ys) ≡ length xs + length ys
  length-append [] ys = omega arith
  length-append (x ∷ xs) ys = omega (arith, length-append xs ys)

  pub length-filter-le : (p : A → Bool) (xs : List A) → length (filter p xs) ≤ length xs
  length-filter-le p [] = omega arith
  length-filter-le p (x ∷ xs) = ground (arith, length-filter-le p xs)

  pub filter-append :
      (p : A → Bool) (xs ys : List A) → filter p (xs ++ ys) ≡ filter p xs ++ filter p ys
  filter-append p [] ys = refl
  filter-append p (x ∷ xs) ys = ground (arith, filter-append p xs ys)

  -- A test and its negation split a list.
  pub filter-perm :
      (p : A → Bool) (xs : List A) → Perm xs (filter p xs ++ filter (λ x. not (p x)) xs)
  filter-perm p [] = Perm.refl []
  filter-perm p (x ∷ xs) =
      let rest = Perm.cons x (filter-perm p xs) in
      ground (arith, rest, Perm.trans rest (Perm.symm (perm_middle (filter p xs) _)))

  -- Two leading blocks change places.
  pub swap_blocks : (xs ys zs : List A) → Perm (xs ++ (ys ++ zs)) (ys ++ (xs ++ zs))
  swap_blocks xs ys zs =
      rw (← append_assoc xs ys zs, ← append_assoc ys xs zs)
        (Perm.append_right zs (perm_append_comm xs ys))

-- What holds of every element, by recursion, so that the tactics read it.
abbrev pub All {ℓ κ} : {A : Type ℓ} → (A → Type κ) → List A → Type κ
All P [] = Unit
All P (x ∷ xs) = P x × All P xs

module _ {ℓ κ} {A : Type ℓ} (P : A → Type κ) where
  pub All-append : (xs ys : List A) → All P xs → All P ys → All P (xs ++ ys)
  All-append [] ys h k = k
  All-append (x ∷ xs) ys (p, h) k = (p, All-append xs ys h k)

  pub All-left : (xs ys : List A) → All P (xs ++ ys) → All P xs
  All-left [] ys h = tt
  All-left (x ∷ xs) ys (p, h) = (p, All-left xs ys h)

  pub All-right : (xs ys : List A) → All P (xs ++ ys) → All P ys
  All-right [] ys h = h
  All-right (x ∷ xs) ys (p, h) = All-right xs ys h

-- Whether a number is in a list.
abbrev pub contains : List ℕ → ℕ → Bool
contains xs n = any (λ m. m == n) xs

pub find-All {ℓ κ} :
    {A : Type ℓ} (P : A → Type κ) (p : A → Bool) (xs : List A) (x : A)
    → All P xs
    → find p xs ≡ some x
    → P x × (p x ≡ true)
find-All P p [] x h e = cc
find-All P p (y ∷ ys) x (h, hs) e = elim (Bool-cases (p y)) [
  | inl hit ↦
      let here : y ≡ x = ground (arith, hit) in (subst P here h, subst (λ z. p z ≡ true) here hit)
  | inr miss ↦ find-All P p ys x hs (ground (arith, miss))
]

module _ {ℓ} {A : Type ℓ} (p : A → Bool) where
  pub filter-keep : (xs : List A) → All (λ x. p x ≡ true) xs → filter p xs ≡ xs
  filter-keep [] h = refl
  filter-keep (x ∷ xs) (h, hs) = rw h (ap (◌∷◌ x) (filter-keep xs hs))

  pub filter-drop : (xs : List A) → All (λ x. p x ≡ false) xs → filter p xs ≡ []
  filter-drop [] h = refl
  filter-drop (x ∷ xs) (h, hs) = rw h (filter-drop xs hs)

  -- The same by a decision, which the library's lemmas speak of.
  filter-decide : (xs : List A) → filter p xs ≡ List.filter (λ x. Bool-discrete (p x) true) xs
  filter-decide [] = refl
  filter-decide (x ∷ xs) = elim (Bool-cases (p x)) [
    | inl h ↦ rw h (ap (◌∷◌ x) (filter-decide xs))
    | inr h ↦ rw h (filter-decide xs)
  ]

  pub filter-mono : {xs ys : List A} → Perm xs ys → Perm (filter p xs) (filter p ys)
  filter-mono {xs} {ys} h =
      rw (filter-decide xs, filter-decide ys) (Perm.filter (λ x. Bool-discrete (p x) true) h)

pub All-of_mem {ℓ κ} :
    {A : Type ℓ} (P : A → Type κ) (xs : List A) → ((x : A) → Mem x xs → P x) → All P xs
All-of_mem P [] h = tt
All-of_mem P (x ∷ xs) h = (h x mem-cons_self, All-of_mem P xs (λ y m. h y (mem-cons.1 (Or.inr m))))

ne_of_test : (x n : ℕ) → (x == n) ≡ false → ¬ (n ≡ x)
ne_of_test x n h e = ground arith

pub contains_iff : (xs : List ℕ) (n : ℕ) → (contains xs n ≡ true) ↔ Mem n xs
contains_iff [] n = (λ e. cc, λ m. absurd (not-mem-nil m))
contains_iff (x ∷ xs) n = elim (Bool-cases (x == n)) [
  | inl same ↦ (λ _. mem-cons.1 (Or.inl (sym ((==_iff x n).0 same))), λ _. rw same refl)
  | inr other ↦ (
    λ e. mem-cons.1 (Or.inr ((contains_iff xs n).0 (rw other at e))),
    λ m. rw other (
        Or.elim (Bool-set _ _) (mem-cons.0 m) (λ e. absurd (ne_of_test x n other e))
          (λ m'. (contains_iff xs n).1 m')),
  )
]

pub All-map {ℓ κ μ} :
    {A : Type ℓ} {P : A → Type κ} {Q : A → Type μ}
    → ((x : A) → P x → Q x)
    → (xs : List A) → All P xs
    → All Q xs
All-map f [] h = tt
All-map f (x ∷ xs) (h, hs) = (f x h, All-map f xs hs)

-- A proposition that holds of all elements holds of each.
pub All-lookup {ℓ κ} :
    {A : Type ℓ} {P : A → Type κ}
    → ((x : A) → IsProp (P x))
    → (xs : List A) {x : A} → All P xs
    → Mem x xs
    → P x
All-lookup {P} c [] h m = absurd (not-mem-nil m)
All-lookup {P} c (y ∷ ys) {x} (h, hs) m =
    Or.elim (c x) (mem-cons.0 m) (λ e. subst P (sym e) h) (All-lookup c ys hs)

pub any-find {ℓ} : {A : Type ℓ} (p : A → Bool) (xs : List A) → find p xs ≡ none → any p xs ≡ false
any-find p [] e = refl
any-find p (x ∷ xs) e = ground (arith, any-find p xs)

length-from_ℕ {ℓ} : {A : Type ℓ} (xs : List A) → length xs ≡ from_ℕ (List.length xs)
length-from_ℕ [] = refl
length-from_ℕ (x ∷ xs) = ap suc (length-from_ℕ xs)

pub Perm-length {ℓ} : {A : Type ℓ} (xs ys : List A) → Perm xs ys → length xs ≡ length ys
Perm-length xs ys h = length-from_ℕ xs ∙ ap from_ℕ (Perm.length-eq h) ∙ sym (length-from_ℕ ys)

pub length-map {ℓ κ} :
    {A : Type ℓ} {B : Type κ} (f : A → B) (xs : List A) → length (map f xs) ≡ length xs
length-map f [] = refl
length-map f (x ∷ xs) = ap suc (length-map f xs)

pub eq-nil_of_length {ℓ} : {A : Type ℓ} (xs : List A) → length xs ≡ 0 → xs ≡ []
eq-nil_of_length [] h = refl
eq-nil_of_length (x ∷ xs) h = absurd (omega arith)

-- What a filter lets through passes its test.
pub filter-head {ℓ} :
    {A : Type ℓ} (p : A → Bool) (xs : List A) {y : A} {ys : List A}
    → filter p xs ≡ y ∷ ys
    → p y ≡ true
filter-head p [] e = cc
filter-head p (x ∷ xs) {y} {ys} e = elim (Bool-cases (p x)) [
  | inl hit ↦ let same : x ≡ y = ground (arith, hit) in subst (λ z. p z ≡ true) same hit
  | inr miss ↦ filter-head p xs {ys = ys} (ground (arith, miss))
]
