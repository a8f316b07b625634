-- ===== src/Auth/Scope/Laws.antt =====
-- Which scopes select a target, and which are refused.
use permissionsync.Prelude.{
  ℕ, ◌≤◌, ◌≡◌, refl, sym, ap, ◌∙◌, ◌↔◌, ◌⊎◌, inl, inr, true, false, List, [], ◌∷◌, ◌++◌, none, some,
  arith, Bool-cases, all, filter, filter-head, length, Result, ok, err, ◌>>=◌, map_ok, map_err,
  Text, subst,
}
use permissionsync.Prelude.Bytes.{starts_with, drop, split, starts_with-drop, drop-append}
use permissionsync.Domain.Target.{
  LogicalTarget, InvalidLogicalTarget, invalid_logical_target, try_from,
}
use permissionsync.Domain.Target.Grammar.{Matches, try_from_iff, try_from-eq-ok}
use permissionsync.Auth.Types.{
  AuthenticationError, rejected, forbidden, TargetSelection, no_target, selected,
}
use permissionsync.Auth.Scope.{
  valid_scope_token, scope_prefix, parse_scope_text, select_scopes, select_target,
}

-- The selection that a scope text makes.
abbrev pub selection : Text → Result AuthenticationError TargetSelection
selection scope = parse_scope_text scope >>= select_target

-- The tokens of a scope that name PermissionSync.
abbrev pub grants : Text → List Text
grants scope = filter (starts_with scope_prefix) (split b' ' scope)

abbrev pub IsScope : Text → Type 0
IsScope scope = all valid_scope_token (split b' ' scope) ≡ true

select_one :
    (token : Text) (t : LogicalTarget)
    → starts_with scope_prefix token ≡ true
    → (select_scopes (token ∷ []) ≡ ok (selected t))
      ↔ ((token ≡ scope_prefix ++ t.value) × Matches t.value)
unfolding select_scopes
select_one token t h = (
  λ e.
      let suffix = drop (length scope_prefix) token in
      let (same, m) = try_from-eq-ok suffix t (label_ok (try_from suffix) e) in
      (
        sym (starts_with-drop scope_prefix token h) ∙ ap (◌++◌ scope_prefix) same,
        subst Matches same m,
      ),
  λ (same, m).
      rw (same, drop-append scope_prefix t.value)
        (ap (λ r. map_ok selected (map_err (λ _. forbidden) r)) ((try_from_iff t.value).0.1 m)),
)
  where
    label_ok :
        (r : Result InvalidLogicalTarget LogicalTarget)
        → map_ok selected (map_err (λ _. forbidden) r) ≡ ok (selected t)
        → r ≡ ok t
    label_ok (ok u) e = ground arith
    label_ok (err x) e = cc

unlisted : {P : Type 0} {t : LogicalTarget} → select_scopes [] ≡ ok (selected t) → P
unfolding select_scopes
unlisted e = cc

repeated :
    {P : Type 0} {t : LogicalTarget} (a b : Text) (rest : List Text)
    → select_scopes (a ∷ b ∷ rest) ≡ ok (selected t)
    → P
unfolding select_scopes
repeated a b rest e = cc

select_list :
    (tokens : List Text) (t : LogicalTarget)
    → ((token : Text) (rest : List Text)
        → tokens ≡ token ∷ rest
        → starts_with scope_prefix token ≡ true)
    → (select_scopes tokens ≡ ok (selected t))
      ↔ ((tokens ≡ (scope_prefix ++ t.value) ∷ []) × Matches t.value)
select_list [] t h = (λ e. unlisted e, λ k. cc k.0)
select_list (token ∷ []) t h =
    let (to, from) = select_one token t (h token [] refl) in
    (λ e. let (same, m) = to e in (ap (λ x. x ∷ []) same, m), λ (same, m). from (ground arith, m))
select_list (a ∷ b ∷ rest) t h = (λ e. repeated a b rest e, λ k. cc k.0)

parse_valid :
    (b : ℕ) (scope : Text)
    → IsScope (b ∷ scope)
    → parse_scope_text (b ∷ scope) ≡ ok (some (split b' ' (b ∷ scope)))
unfolding parse_scope_text
parse_valid b scope h = rw h refl

parse_invalid :
    (b : ℕ) (scope : Text)
    → all valid_scope_token (split b' ' (b ∷ scope)) ≡ false
    → parse_scope_text (b ∷ scope) ≡ err rejected
unfolding parse_scope_text
parse_invalid b scope h = rw h refl

empty_invalid : all valid_scope_token (split b' ' []) ≡ false
unfolding valid_scope_token split
empty_invalid = refl

parse_empty : parse_scope_text [] ≡ ok none
unfolding parse_scope_text
parse_empty = refl

grants-head :
    (scope token : Text) (rest : List Text)
    → grants scope ≡ token ∷ rest
    → starts_with scope_prefix token ≡ true
grants-head scope token rest e =
    filter-head (starts_with scope_prefix) (split b' ' scope) {ys = rest} e

-- The selection of a scope, given whether its tokens are valid.
selection-valid :
    (b : ℕ) (scope : Text)
    → IsScope (b ∷ scope)
    → selection (b ∷ scope) ≡ select_scopes (grants (b ∷ scope))
unfolding select_target
selection-valid b scope h = ap (λ r. r >>= select_target) (parse_valid b scope h)

selection-invalid :
    (b : ℕ) (scope : Text)
    → all valid_scope_token (split b' ' (b ∷ scope)) ≡ false
    → selection (b ∷ scope) ≡ err rejected
selection-invalid b scope h = ap (λ r. r >>= select_target) (parse_invalid b scope h)

selection-empty : selection [] ≡ ok no_target
unfolding select_target
selection-empty = ap (λ r. r >>= select_target) parse_empty

-- A scope selects a target exactly when all its tokens are valid, exactly one of them names
-- PermissionSync, that token is the prefix followed by the target, and the target matches the
-- grammar.
pub selection-selected_iff :
    (scope : Text) (t : LogicalTarget)
    → (selection scope ≡ ok (selected t))
      ↔ (IsScope scope × (grants scope ≡ (scope_prefix ++ t.value) ∷ []) × Matches t.value)
selection-selected_iff [] t = (λ e. cc (sym selection-empty ∙ e), λ k. cc (sym empty_invalid ∙ k.0))
selection-selected_iff (b ∷ scope) t =
    elim (Bool-cases (all valid_scope_token (split b' ' (b ∷ scope)))) [
      | inl valid ↦
          let (to, from) = select_list (grants (b ∷ scope)) t (grants-head (b ∷ scope)) in
          (
            λ e. let (one, m) = to (sym (selection-valid b scope valid) ∙ e) in (valid, one, m),
            λ (_, one, m). selection-valid b scope valid ∙ from (one, m),
          )
      | inr invalid ↦
          (λ e. cc (sym (selection-invalid b scope invalid) ∙ e), λ k. cc (sym invalid ∙ k.0))
    ]

refused_list :
    (tokens : List Text)
    → ((token : Text) (rest : List Text)
        → tokens ≡ token ∷ rest
        → starts_with scope_prefix token ≡ true)
    → (select_scopes tokens ≡ err forbidden) ↔ (
        (2 ≤ length tokens)
        ⊎ ((suffix : Text) × (tokens ≡ (scope_prefix ++ suffix) ∷ []) × (¬ Matches suffix)))
unfolding select_scopes
refused_list [] h = (λ e. cc, λ k. absurd (none_refused k))
  where
    none_refused :
        (2 ≤ length {A = Text} [])
          ⊎ ((suffix : Text) × ([] ≡ (scope_prefix ++ suffix) ∷ []) × (¬ Matches suffix))
        → ⊥
    none_refused (inl n) = omega arith
    none_refused (inr (s, e, n)) = cc
refused_list (token ∷ []) h =
    let suffix = drop (length scope_prefix) token in
    let same = starts_with-drop scope_prefix token (h token [] refl) in
    (
      λ e. inr (
        suffix,
        ap (λ x. x ∷ []) (sym same),
        (try_from_iff suffix).1.0 (label_err (try_from suffix) e),
      ),
      λ k. label_back (drop (length scope_prefix) token) (refused k),
    )
  where
    label_err :
        (r : Result InvalidLogicalTarget LogicalTarget)
        → map_ok selected (map_err (λ _. forbidden) r) ≡ err forbidden
        → r ≡ err invalid_logical_target
    label_err (ok u) e = cc
    label_err (err invalid_logical_target) e = refl

    label_back :
        (suffix : Text)
        → (¬ Matches suffix)
        → map_ok selected (map_err (λ _. forbidden) (try_from suffix)) ≡ err forbidden
    label_back suffix n =
        ap (λ r. map_ok selected (map_err (λ _. forbidden) r)) ((try_from_iff suffix).1.1 n)

    refused :
        (2 ≤ length (token ∷ []))
          ⊎ ((suffix : Text) × (token ∷ [] ≡ (scope_prefix ++ suffix) ∷ []) × (¬ Matches suffix))
        → ¬ Matches (drop (length scope_prefix) token)
    refused (inl n) = absurd (omega arith)
    refused (inr (s, e, n)) =
        let same : token ≡ scope_prefix ++ s = ground arith in
        rw (same, drop-append scope_prefix s) n
refused_list (a ∷ b ∷ rest) h = (λ _. inl (omega arith), λ _. refl)

-- A scope is refused as an unusable grant exactly when all its tokens are valid and either two or
-- more of them name PermissionSync, or one does with a suffix outside the target grammar.
pub selection-forbidden_iff :
    (scope : Text)
    → (selection scope ≡ err forbidden) ↔ (
        IsScope scope
        × ((2 ≤ length (grants scope))
            ⊎ ((suffix : Text) × (grants scope ≡ (scope_prefix ++ suffix) ∷ [])
                × (¬ Matches suffix))))
selection-forbidden_iff [] = (λ e. cc (sym selection-empty ∙ e), λ k. cc (sym empty_invalid ∙ k.0))
selection-forbidden_iff (b ∷ scope) =
    elim (Bool-cases (all valid_scope_token (split b' ' (b ∷ scope)))) [
      | inl valid ↦
          let (to, from) = refused_list (grants (b ∷ scope)) (grants-head (b ∷ scope)) in
          (
            λ e. (valid, to (sym (selection-valid b scope valid) ∙ e)),
            λ (_, why). selection-valid b scope valid ∙ from why,
          )
      | inr invalid ↦
          (λ e. cc (sym (selection-invalid b scope invalid) ∙ e), λ k. cc (sym invalid ∙ k.0))
    ]
