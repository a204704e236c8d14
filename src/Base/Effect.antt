-- ===== src/Base/Effect.antt =====
-- Exceptions and state: a coroutine that may raise is an action, which returns the state with its
-- result also where it raises, so what was done before the exception stays done.
use mathlib.Core.Path.{◌≡◌, refl}
use native.Mathlib.Omega.{arith}

module _ {ℓ} (E : Type ℓ) where
  pub data Result (A : Type ℓ) : Type ℓ where
    ok : A → Result A
    err : E → Result A

abbrev pub Act {ℓ} : Type ℓ → Type ℓ → Type ℓ → Type ℓ
Act E S A = S → Result E A × S

module _ {ℓ} {E S : Type ℓ} where
  abbrev pub pure : {A : Type ℓ} → A → Act E S A
  pure a s = (ok a, s)

  abbrev pub raise : {A : Type ℓ} → E → Act E S A
  raise e s = (err e, s)

  abbrev pub lift : {A : Type ℓ} → Result E A → Act E S A
  lift r s = (r, s)

  abbrev pub get : Act E S S
  get s = (ok s, s)

module _ {ℓ} {E S A B : Type ℓ} where
  abbrev pub continue : Result E A → (A → Act E S B) → Act E S B
  continue (ok a) f s = f a s
  continue (err e) f s = (err e, s)

  infixl 5 ◌>>=◌ ◌>>◌
  abbrev pub ◌>>=◌ : Act E S A → (A → Act E S B) → Act E S B
  ◌>>=◌ m f s = let (r, s') = m s in continue r f s'

  abbrev pub ◌>>◌ : Act E S A → Act E S B → Act E S B
  m >> n = m >>= λ _. n

  -- Of the state that an action leaves which succeeds: what its second part leaves has the property,
  -- given that both parts succeed.
  pub after_success {κ} :
      (P : S → Type κ) (r : Result E A) (f : A → Act E S B) (s : S) (v : B)
      → ((x : A) → r ≡ ok x → (f x s).0 ≡ ok v → P (f x s).1)
      → (continue r f s).0 ≡ ok v
      → P (continue r f s).1
  after_success P (ok x) f s v next h = next x refl h
  after_success P (err e) f s v next h = ground arith
