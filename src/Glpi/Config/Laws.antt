-- ===== src/Glpi/Config/Laws.antt =====
-- crates/permissionsync-adapter-glpi/src/config.rs: the paths of the endpoints of `parse_base`.
use permissionsync.Prelude.{
  true, [], ◌∷◌, ◌++◌, Option, none, some, ◌≡◌, ◌⊎◌, inl, inr, Bool-cases, refl, arith, Text, text,
}
use permissionsync.Prelude.Bytes.{text_eq_iff}
use mathlib.Core.Logic.{◌↔◌}
use mathlib.Core.Path.{sym}
use mathlib.Core.List.{append_assoc}
use permissionsync.Glpi.Search.Page.{rsplit_once}
use permissionsync.Glpi.Config.{strip_slash, terminal, is_terminal, base_path}

strip_slash-parts : (p : Text) → (p ≡ strip_slash p) ⊎ (p ≡ strip_slash p ++ text "/")
unfolding strip_slash
strip_slash-parts [] = ground arith
strip_slash-parts (b ∷ []) = ground arith
strip_slash-parts (b ∷ c ∷ t) = ground (arith, strip_slash-parts (c ∷ t))

strip_slash-slash : (p : Text) → strip_slash (p ++ text "/") ≡ p
unfolding strip_slash
strip_slash-slash [] = refl
strip_slash-slash (b ∷ []) = refl
strip_slash-slash (b ∷ c ∷ t) = rw (strip_slash-slash (c ∷ t)) refl

strip_slash-terminal :
    (before : Text) → strip_slash (before ++ text "/apirest.php") ≡ before ++ text "/apirest.php"
unfolding strip_slash
strip_slash-terminal [] = refl
strip_slash-terminal (b ∷ []) = refl
strip_slash-terminal (b ∷ c ∷ t) = rw (strip_slash-terminal (c ∷ t)) refl

rsplit_once-terminal :
    (before : Text) → rsplit_once 47 (before ++ text "/apirest.php") ≡ some (before, terminal)
unfolding rsplit_once
rsplit_once-terminal [] = refl
rsplit_once-terminal (b ∷ before) = rw (rsplit_once-terminal before) refl

rsplit_once-parts : (s l r : Text) → rsplit_once 47 s ≡ some (l, r) → s ≡ l ++ 47 ∷ r
unfolding rsplit_once
rsplit_once-parts [] l r h = ground arith
rsplit_once-parts (b ∷ s) l r h = grind (arith, rsplit_once-parts s)

component :
    (s : Text) (o : Option (Text × Text))
    → rsplit_once 47 s ≡ o
    → is_terminal o ≡ true
    → (before : Text) × (s ≡ before ++ text "/apirest.php")
component s none h t = ground arith
component s (some (l, r)) h t =
    (l, ground (arith, rsplit_once-parts s l r h, text_eq_iff r terminal))

slashed :
    (before : Text) → (before ++ text "/apirest.php") ++ text "/" ≡ before ++ text "/apirest.php/"
slashed before = append_assoc before (text "/apirest.php") (text "/")

strip_slash-slashed :
    (before : Text) → strip_slash (before ++ text "/apirest.php/") ≡ before ++ text "/apirest.php"
strip_slash-slashed before =
    rw (sym (slashed before)) (strip_slash-slash (before ++ text "/apirest.php"))

base_path-parts :
    (p q : Text)
    → base_path p ≡ some q
    → (before : Text) × (q ≡ before ++ text "/apirest.php/")
      × ((p ≡ before ++ text "/apirest.php") ⊎ (p ≡ before ++ text "/apirest.php/"))
unfolding base_path
base_path-parts p q h = elim (Bool-cases (is_terminal (rsplit_once 47 (strip_slash p)))) [
  | inr other ↦ ground arith
  | inl found ↦
      let (before, same) = component (strip_slash p) (rsplit_once 47 (strip_slash p)) refl found in
      (
        before,
        ground (arith, found, same, slashed before, strip_slash-parts p),
        ground (arith, found, same, slashed before, strip_slash-parts p),
      )
]

base_path-accepts :
    (before p : Text)
    → strip_slash p ≡ before ++ text "/apirest.php"
    → base_path p ≡ some (before ++ text "/apirest.php/")
unfolding base_path
base_path-accepts before p h = rw (h, rsplit_once-terminal before, slashed before) refl

-- The path of an endpoint is accepted exactly if it ends in the component `apirest.php`, with or
-- without a slash, and its normal form has one slash after it.
pub base_path_iff :
    (p q : Text)
    → (base_path p ≡ some q) ↔ (
        (before : Text) × (q ≡ before ++ text "/apirest.php/")
        × ((p ≡ before ++ text "/apirest.php") ⊎ (p ≡ before ++ text "/apirest.php/")))
unfolding base_path
base_path_iff p q = (
  base_path-parts p q,
  λ (before, same, ends). elim ends [
    | inl plain ↦
        rw (plain, same)
          (base_path-accepts before (before ++ text "/apirest.php") (strip_slash-terminal before))
    | inr with_slash ↦
        rw (with_slash, same)
          (base_path-accepts before (before ++ text "/apirest.php/") (strip_slash-slashed before))
  ],
)
