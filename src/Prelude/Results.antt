-- ===== src/Prelude/Results.antt =====
-- A computation that may raise: its value, or the exception.
use mathlib.Core.Path.{◌≡◌, refl}
use mathlib.Core.Logic.{◌⊎◌, inl, inr}

pub data Result {ℓ} (E : Type ℓ) (A : Type ℓ) : Type ℓ where
  ok : A → Result E A
  err : E → Result E A

infixl 5 ◌>>=◌
abbrev pub ◌>>=◌ {ℓ} : {E A B : Type ℓ} → Result E A → (A → Result E B) → Result E B
err fault >>= rest = err fault
ok value >>= rest = rest value

module _ {ℓ} {E A B : Type ℓ} where
  -- Inversion of a successful bind.
  pub >>=-eq-ok :
      {result : B} (first : Result E A) (rest : A → Result E B)
      → (first >>= rest) ≡ ok result
      → (value : A) × (first ≡ ok value) × (rest value ≡ ok result)
  >>=-eq-ok (err fault) rest h = cc
  >>=-eq-ok (ok value) rest h = (value, refl, h)

module _ {ℓ} {E A : Type ℓ} where
  pub Result-cases : (m : Result E A) → ((a : A) × (m ≡ ok a)) ⊎ ((e : E) × (m ≡ err e))
  Result-cases (ok a) = inl (a, refl)
  Result-cases (err e) = inr (e, refl)

  pub ok-injective : (a b : A) → ◌≡◌ {A = Result E A} (ok a) (ok b) → a ≡ b
  ok-injective a b e = cc

  pub err-injective : (x y : E) → ◌≡◌ {A = Result E A} (err x) (err y) → x ≡ y
  err-injective x y e = cc

module _ {ℓ} {E A : Type ℓ} where
  -- The computation returns, and its value has the property.
  abbrev pub Returns : (A → Type 0) → Result E A → Type 0
  Returns P (ok a) = P a
  Returns P (err e) = ⊥

  pub Returns-value : (P : A → Type 0) (m : Result E A) → Returns P m → (a : A) × (m ≡ ok a) × P a
  Returns-value P (ok a) h = (a, refl, h)
  Returns-value P (err e) h = absurd h

module _ {ℓ} {E A B : Type ℓ} where
  pub Returns-bind :
      (P : A → Type 0) (Q : B → Type 0) (m : Result E A) (f : A → Result E B)
      → Returns P m
      → ((a : A) → m ≡ ok a → P a → Returns Q (f a))
      → Returns Q (m >>= f)
  Returns-bind P Q (ok a) f h k = k a refl h
  Returns-bind P Q (err e) f h k = absurd h
