-- ===== src/Base/Effects.antt =====
-- Stateful fallible code: what was done before an error stays done, so that the state comes back
-- beside the error too.
use mathlib.Core.Path.{◌≡◌, refl}
use mathlib.Core.Option.{Option, none, some}
use mathlib.Core.List.{List, [], ◌∷◌}
use cortado.Base.Results.{Result, ok, err}

abbrev pub Effect {ℓ κ μ} : Type ℓ → Type κ → Type μ → Type (ℓ ⊔ κ ⊔ μ)
Effect S E A = S → Result E A × S

module _ {ℓ κ μ} {S : Type ℓ} {E : Type κ} {A : Type μ} where
  abbrev pub pure : A → Effect S E A
  pure a s = (ok a, s)

  abbrev pub fail : E → Effect S E A
  fail e s = (err e, s)

  abbrev pub require : Option A → E → Effect S E A
  require none e = fail e
  require (some a) e = pure a

  abbrev pub gets : (S → A) → Effect S E A
  gets f s = (ok (f s), s)

  -- `let _ = step`, and a failure that is only logged.
  abbrev pub dropped : Result E A × S → Result E (Unit {0}) × S
  dropped (r, s) = (ok tt, s)

  abbrev pub quietly : Effect S E A → Effect S E (Unit {0})
  quietly step s = dropped (step s)

module _ {ℓ κ μ ν} {S : Type ℓ} {E : Type κ} {A : Type μ} {B : Type ν} where
  abbrev pub continue : Result E A × S → (A → Effect S E B) → Result E B × S
  continue (ok a, s) next = next a s
  continue (err e, s) next = (err e, s)

  infixl 5 ◌>>=◌ ◌>>◌
  abbrev pub ◌>>=◌ : Effect S E A → (A → Effect S E B) → Effect S E B
  ◌>>=◌ step next s = continue (step s) next

  abbrev pub ◌>>◌ : Effect S E A → Effect S E B → Effect S E B
  step >> later = step >>= λ _. later

  continue-ok :
      (r : Result E A) (s : S) (next : A → Effect S E B) (a : A)
      → r ≡ ok a
      → continue (r, s) next ≡ next a s
  continue-ok (ok b) s next a h = let same : b ≡ a = cc in rw same refl
  continue-ok (err e) s next a h = cc

  pub >>=-ok :
      (step : Effect S E A) (next : A → Effect S E B) (s : S) (a : A)
      → (step s).0 ≡ ok a
      → (step >>= next) s ≡ next a (step s).1
  >>=-ok step next s a h = continue-ok (step s).0 (step s).1 next a h

  -- A block that succeeds: its first step did, and the rest went on from there.
  pub continue-eq-ok :
      (r : Result E A) (s : S) (next : A → Effect S E B) (b : B)
      → (continue (r, s) next).0 ≡ ok b
      → (a : A) × (r ≡ ok a) × (continue (r, s) next ≡ next a s)
  continue-eq-ok (ok a) s next b h = (a, refl, refl)
  continue-eq-ok (err e) s next b h = cc

module _ {ℓ κ} {S : Type ℓ} {E : Type κ} where
  abbrev pub modify : (S → S) → Effect S E (Unit {0})
  modify f s = (ok tt, f s)

  abbrev pub skip : Effect S E (Unit {0})
  skip = pure tt

module _ {ℓ κ μ} {S : Type ℓ} {E : Type κ} {A : Type μ} where
  -- A `for` loop that the first error ends.
  unfoldable pub each : (A → Effect S E (Unit {0})) → List A → Effect S E (Unit {0})
  each body [] = skip
  each body (a ∷ rest) = body a >> each body rest
