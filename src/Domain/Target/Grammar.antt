-- ===== src/Domain/Target/Grammar.antt =====
-- The target grammar as docs/adr/0001-inbound-synchronization-contract.md states it,
-- `^[a-z0-9]([a-z0-9._-]{0,62}[a-z0-9])?$`, against the checks of the code.
use permissionsync.Prelude.{
  ℕ, ◌≤◌, ◌≡◌, refl, sym, ap, ◌∙◌, ◌↔◌, inl, inr, true, false, ◌&&◌, [], ◌∷◌, ◌++◌, arith, ltb,
  if◌then◌else◌, length, all, ok, err, Text, Bool-cases, subst, length-append,
}
use permissionsync.Domain.Target.{
  LogicalTarget, invalid_logical_target, is_edge_character, is_inner_character, last, inner,
  check_grammar, try_from,
}

-- One edge character, or two edge characters around at most 62 inner ones.
pub data Matches : Text → Type 0 where
  single : (c : ℕ) → is_edge_character c ≡ true → Matches (c ∷ [])
  framed :
      (c d : ℕ) (mid value : Text)
      → is_edge_character c ≡ true
      → is_edge_character d ≡ true
      → all is_inner_character mid ≡ true
      → length mid ≤ 62
      → value ≡ c ∷ (mid ++ d ∷ [])
      → Matches value

-- A text of two or more bytes is its first byte, its inner bytes and its last byte.
split_ends : (c : ℕ) (bytes : Text) → c ∷ bytes ≡ inner (c ∷ bytes) ++ last c bytes ∷ []
unfolding last inner
split_ends c [] = refl
split_ends c (d ∷ bytes) = ap (◌∷◌ c) (split_ends d bytes)

inner-concat : (mid : Text) (d : ℕ) → inner (mid ++ d ∷ []) ≡ mid
unfolding inner
inner-concat [] d = refl
inner-concat (c ∷ []) d = refl
inner-concat (c ∷ e ∷ mid) d = ap (◌∷◌ c) (inner-concat (e ∷ mid) d)

last-framed : (c d : ℕ) (mid : Text) → last c (mid ++ d ∷ []) ≡ d
unfolding last
last-framed c d [] = refl
last-framed c d (e ∷ mid) = last-framed e d mid

-- The checks of the code on a text of two or more bytes, at its ends and between them.
check_framed :
    (c d : ℕ) (mid : Text)
    → check_grammar (c ∷ (mid ++ d ∷ [])) ≡ (
        if ltb 62 (length mid)
        then false
        else is_edge_character c && is_edge_character d && all is_inner_character mid)
unfolding check_grammar
check_framed c d [] = ground arith
check_framed c d (e ∷ mid) =
    rw (last-framed c d (e ∷ mid), inner-concat (e ∷ mid) d, length-append mid (d ∷ []))
      (ground arith)

check_empty : check_grammar [] ≡ false
unfolding check_grammar
check_empty = refl

check_single : (c : ℕ) → check_grammar (c ∷ []) ≡ is_edge_character c
unfolding check_grammar last
check_single c = ground arith

check_grammar-Matches : (value : Text) → check_grammar value ≡ true → Matches value
check_grammar-Matches [] h = cc (sym check_empty ∙ h)
check_grammar-Matches (c ∷ []) h = single c (sym (check_single c) ∙ h)
check_grammar-Matches (c ∷ e ∷ bytes) h =
    let same = split_ends e bytes in
    let k =
      sym (check_framed c (last e bytes) (inner (e ∷ bytes)))
      ∙ subst (λ r. check_grammar (c ∷ r) ≡ true) same h in
    framed c (last e bytes) (inner (e ∷ bytes)) _ (ground (arith, k)) (ground (arith, k))
      (ground (arith, k)) (ground (arith, k)) (ap (◌∷◌ c) same)

Matches-check_grammar : {value : Text} → Matches value → check_grammar value ≡ true
Matches-check_grammar (single c h) = check_single c ∙ h
Matches-check_grammar (framed c d mid value h k m n e) = rw e (check_framed c d mid ∙ ground arith)

-- A text is accepted as a logical target, unchanged, exactly when it matches the grammar; every
-- other text is refused.
pub try_from_iff :
    (value : Text)
    → ((try_from value ≡ ok (record { value = value })) ↔ Matches value)
      × ((try_from value ≡ err invalid_logical_target) ↔ (¬ Matches value))
unfolding try_from
try_from_iff value = elim (Bool-cases (check_grammar value)) [
  | inl accepted ↦
      let m = check_grammar-Matches value accepted in
      rw accepted ((λ _. m, λ _. refl), (λ e. cc, λ n. absurd (n m)))
  | inr refused ↦
      let n : ¬ Matches value = λ m. cc (sym refused ∙ Matches-check_grammar m) in
      rw refused ((λ e. cc, λ m. absurd (n m)), (λ _. n, λ _. refl))
]

pub try_from-eq-ok :
    (value : Text) (t : LogicalTarget) → try_from value ≡ ok t → (value ≡ t.value) × Matches value
unfolding try_from
try_from-eq-ok value t e = elim (Bool-cases (check_grammar value)) [
  | inl accepted ↦ (ground (arith, accepted), check_grammar-Matches value accepted)
  | inr refused ↦ ground (arith, refused)
]
