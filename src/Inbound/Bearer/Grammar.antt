-- ===== src/Inbound/Bearer/Grammar.antt =====
-- crates/permissionsync-inbound-http/src/lib.rs: the values of `Authorization` that carry a bearer.
use permissionsync.Prelude.{
  ℕ, zero, suc, ◌≡◌, refl, sym, ap, subst, ◌∙◌, Bool, true, false, [], ◌∷◌, ◌++◌, some, leb, ◌==◌,
  length, length-append, all, Bool-cases, inl, inr, Text, text, drop, drop-append, arith,
}
use permissionsync.Prelude.Bytes.{eq_ignore_ascii_case}
use permissionsync.Inbound.Bearer.{
  take, skip_spaces, before_padding, is_nonempty, is_b64token, is_b64token_non_padding_character,
  credential_of, bearer_of,
}

take-drop : (n : ℕ) (t : Text) → take n t ++ drop n t ≡ t
unfolding take
take-drop zero t = refl
take-drop (suc n) [] = refl
take-drop (suc n) (b ∷ t) = ap (◌∷◌ b) (take-drop n t)

abbrev pub are_spaces : Text → Bool
are_spaces = all (λ b. b == 32)

-- The spaces that are skipped.
skipped : (t : Text) → (spaces : Text) × (are_spaces spaces ≡ true) × (spaces ++ skip_spaces t ≡ t)
unfolding skip_spaces
skipped [] = ([], refl, refl)
skipped (b ∷ t) = elim (Bool-cases (b == 32)) [
  | inl space ↦
      let (spaces, blank, whole) = skipped t in
      (b ∷ spaces, rw space blank, rw space (ap (◌∷◌ b) whole))
  | inr other ↦ ([], refl, rw other refl)
]

-- The grammar of an accepted value: the scheme in any case, at least one space, and a token.
pub record IsBearer (value credential : Text) : Type 0 where
  pub scheme : Text
  pub spaces : Text
  pub whole : value ≡ scheme ++ (spaces ++ credential)
  pub named : eq_ignore_ascii_case scheme (text "bearer") ≡ true
  pub blank : are_spaces spaces ≡ true
  pub apart : is_nonempty spaces ≡ true
  pub token : is_b64token credential ≡ true

nonempty_of_length :
    (spaces rest : Text)
    → (length rest == length (spaces ++ rest)) ≡ false
    → is_nonempty spaces ≡ true
nonempty_of_length [] rest h = ground arith
nonempty_of_length (b ∷ spaces) rest h = refl

-- A credential is taken only from a value with the scheme `Bearer`, at least one space, and a
-- `b64token`, which is the credential, byte for byte.
pub bearer_of-IsBearer :
    (value credential : Text) → bearer_of (some value) ≡ some credential → IsBearer value credential
unfolding bearer_of credential_of
bearer_of-IsBearer value credential h =
    let (spaces, blank, split_) = skipped (drop 6 value) in
    let same : skip_spaces (drop 6 value) ≡ credential = ground arith in
    let unequal : (length (skip_spaces (drop 6 value)) == length (drop 6 value)) ≡ false =
      ground arith in
    record {
      scheme = take 6 value;
      spaces = spaces;
      whole =
          sym (take-drop 6 value)
          ∙ ap (λ t. take 6 value ++ t) (sym split_ ∙ ap (λ t. spaces ++ t) same);
      named = ground arith;
      blank = blank;
      apart = nonempty_of_length spaces (skip_spaces (drop 6 value)) (
          subst (λ t. (length (skip_spaces (drop 6 value)) == length t) ≡ false) (sym split_)
            unequal);
      token = ground arith;
    }

abbrev pub spaces_of : ℕ → Text
spaces_of zero = []
spaces_of (suc n) = 32 ∷ spaces_of n

skip_spaces-token : (n : ℕ) (c : Text) → is_b64token c ≡ true → skip_spaces (spaces_of n ++ c) ≡ c
unfolding skip_spaces is_b64token before_padding is_b64token_non_padding_character
skip_spaces-token zero [] h = refl
skip_spaces-token zero (b ∷ c) h = ground arith
skip_spaces-token (suc n) c h = skip_spaces-token n c h

eq_ignore_ascii_case-length : (s t : Text) → eq_ignore_ascii_case s t ≡ true → length s ≡ length t
unfolding eq_ignore_ascii_case
eq_ignore_ascii_case-length [] [] h = refl
eq_ignore_ascii_case-length (a ∷ s) (b ∷ t) h =
    ap suc (eq_ignore_ascii_case-length s t (ground arith))
eq_ignore_ascii_case-length [] (b ∷ t) h = cc
eq_ignore_ascii_case-length (a ∷ s) [] h = cc

take-append : (p t : Text) → take (length p) (p ++ t) ≡ p
unfolding take
take-append [] t = refl
take-append (a ∷ p) t = ap (◌∷◌ a) (take-append p t)

token-nonempty : (c : Text) → is_b64token c ≡ true → is_nonempty c ≡ true
unfolding is_b64token before_padding
token-nonempty [] h = cc
token-nonempty (b ∷ c) h = refl

spaced : (n : ℕ) (c : Text) → is_b64token c ≡ true → credential_of (spaces_of (suc n) ++ c) ≡ some c
unfolding credential_of
spaced n c h = rw (skip_spaces-token (suc n) c h, longer n c, token-nonempty c h, h) refl
  where
    longer : (n : ℕ) (c : Text) → (length c == length (spaces_of (suc n) ++ c)) ≡ false
    longer n c = ground (arith, length-append (spaces_of (suc n)) c)

-- A value with the scheme in any case, one or more spaces and a `b64token` gives back the token.
pub bearer_of-token :
    (scheme credential : Text) (n : ℕ)
    → eq_ignore_ascii_case scheme (text "bearer") ≡ true
    → is_b64token credential ≡ true
    → bearer_of (some (scheme ++ (spaces_of (suc n) ++ credential))) ≡ some credential
unfolding bearer_of
bearer_of-token scheme credential n named token =
    let six : length scheme ≡ 6 = eq_ignore_ascii_case-length scheme (text "bearer") named in
    let rest = spaces_of (suc n) ++ credential in
    let front : take 6 (scheme ++ rest) ≡ scheme =
      subst (λ m. take m (scheme ++ rest) ≡ scheme) six (take-append scheme rest) in
    let back : drop 6 (scheme ++ rest) ≡ rest =
      subst (λ m. drop m (scheme ++ rest) ≡ rest) six (drop-append scheme rest) in
    let long : leb (length (scheme ++ rest)) 6 ≡ false =
      ground (arith, length-append scheme rest, six) in
    rw (long, front, named, back) (spaced n credential token)
