-- ===== src/Prelude/Io.antt =====
-- Code that talks to the outside: a function from the state of the world to a result and the next
-- state. An awaited call may change the world in any way.
use mathlib.Core.Bool.{Bool, true, false}
use mathlib.Core.Path.{◌≡◌, refl}
use permissionsync.Prelude.Outcome.{Result, ok, err}

abbrev pub Io : Type 0 → Type 0 → Type 0 → Type 0
Io W E A = W → Result E A × W

module _ {W E : Type 0} where
  abbrev pub pure : {A : Type 0} → A → Io W E A
  pure a w = (ok a, w)

  abbrev pub throw : {A : Type 0} → E → Io W E A
  throw e w = (err e, w)

  -- `?` on an awaited result: go on with a value, return an error.
  abbrev pub proceed : {A B : Type 0} → (A → Io W E B) → Result E A × W → Result E B × W
  proceed f (ok a, w) = f a w
  proceed f (err e, w) = (err e, w)

  infixl 5 ◌>>=◌ ◌>>◌
  abbrev pub ◌>>=◌ : {A B : Type 0} → Io W E A → (A → Io W E B) → Io W E B
  ◌>>=◌ m f w = proceed f (m w)

  abbrev pub ◌>>◌ : {B : Type 0} → Io W E (Unit {0}) → Io W E B → Io W E B
  m >> k = m >>= λ _. k

  -- Inversion of a successful step.
  pub proceed-eq-ok :
      {A B : Type 0} (k : A → Io W E B) (r : Result E A × W) {b : B} {w' : W}
      → proceed k r ≡ (ok b, w')
      → (a : A) × (w1 : W) × (r ≡ (ok a, w1)) × (k a w1 ≡ (ok b, w'))
  proceed-eq-ok k (ok a, w) h = (a, w, refl, h)
  proceed-eq-ok k (err e, w) h = cc

  -- A result that is known already.
  abbrev pub lift : {A : Type 0} → Result E A → Io W E A
  lift r w = (r, w)

  abbrev pub guard : Bool → E → Io W E (Unit {0})
  guard true e w = (ok tt, w)
  guard false e w = (err e, w)

-- `map_err` after an await.
abbrev pub relabel : {E F A W : Type 0} → (E → F) → Result E A × W → Result F A × W
relabel f (ok a, w) = (ok a, w)
relabel f (err e, w) = (err (f e), w)

abbrev pub map_err : {E F A W : Type 0} → (E → F) → Io W E A → Io W F A
map_err f m w = relabel f (m w)
