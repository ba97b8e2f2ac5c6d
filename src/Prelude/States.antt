-- ===== src/Prelude/States.antt =====
-- A computation over a state that may raise. What was written before the exception stays written, so
-- the state comes back beside the exception too.
use mathlib.Core.Path.{◌≡◌, refl}
use mathlib.Core.Logic.{◌⊎◌, inl, inr}
use acds.Prelude.Results.{Result, ok, err}

abbrev pub Exec {ℓ} : Type ℓ → Type ℓ → Type ℓ → Type ℓ
Exec S E A = S → Result E A × S

module _ {ℓ} {S E A : Type ℓ} where
  abbrev pub lift : Result E A → Exec S E A
  lift r s = (r, s)

  abbrev pub gets : (S → A) → Exec S E A
  gets f s = (ok (f s), s)

module _ {ℓ} {S E : Type ℓ} where
  abbrev pub modify : (S → S) → Exec S E (Unit {ℓ})
  modify f s = (ok tt, f s)

module _ {ℓ} {S E A B : Type ℓ} where
  abbrev pub continue : Result E A → (A → Exec S E B) → Exec S E B
  continue (ok a) f s = f a s
  continue (err e) f s = (err e, s)

  infixl 5 ◌>>=◌ ◌>>◌
  abbrev pub ◌>>=◌ : Exec S E A → (A → Exec S E B) → Exec S E B
  ◌>>=◌ m f s = let (r, s') = m s in continue r f s'

  abbrev pub ◌>>◌ : Exec S E A → Exec S E B → Exec S E B
  m >> k = m >>= λ _. k

module _ {ℓ} {S E A : Type ℓ} where
  -- The computation returned, and its value and the state after it have the property.
  abbrev pub Succeeds : (A → S → Type 0) → Result E A × S → Type 0
  Succeeds P (ok a, s) = P a s
  Succeeds P (err e, s) = ⊥

  pub Succeeds-value :
      (P : A → S → Type 0) (r : Result E A × S)
      → Succeeds P r
      → (a : A) × (s : S) × (r ≡ (ok a, s)) × P a s
  Succeeds-value P (ok a, s) h = (a, s, refl, h)
  Succeeds-value P (err e, s) h = absurd h

module _ {ℓ} {S E A : Type ℓ} where
  pub Succeeds-mono :
      (P Q : A → S → Type 0) (r : Result E A × S)
      → ((a : A) (s : S) → P a s → Q a s)
      → Succeeds P r
      → Succeeds Q r
  Succeeds-mono P Q (ok a, s) f h = f a s h
  Succeeds-mono P Q (err e, s) f h = h

module _ {ℓ} {S E A B : Type ℓ} where
  pub Succeeds-bind :
      (P : A → S → Type 0) (Q : B → S → Type 0) (m : Exec S E A) (f : A → Exec S E B) (s : S)
      → Succeeds P (m s)
      → ((a : A) (s' : S) → P a s' → Succeeds Q (f a s'))
      → Succeeds Q ((m >>= f) s)
  Succeeds-bind P Q m f s h k = after (m s) h
    where
      after : (r : Result E A × S) → Succeeds P r → Succeeds Q (continue r.0 f r.1)
      after (ok a, s') x = k a s' x
      after (err e, s') x = absurd x

  -- Inversion of a successful bind.
  pub >>=-eq-ok :
      (m : Exec S E A) (f : A → Exec S E B) (s s'' : S) (b : B)
      → (m >>= f) s ≡ (ok b, s'')
      → (a : A) × (s' : S) × (m s ≡ (ok a, s')) × (f a s' ≡ (ok b, s''))
  >>=-eq-ok m f s s'' b e = after (m s) e
    where
      after :
          (r : Result E A × S)
          → continue r.0 f r.1 ≡ (ok b, s'')
          → (a : A) × (s' : S) × (r ≡ (ok a, s')) × (f a s' ≡ (ok b, s''))
      after (ok a, s') x = (a, s', refl, x)
      after (err x, s') y = absurd (cc)

  -- Inversion of a bind that raised: the first computation did, or the second after it.
  pub >>=-eq-err :
      (m : Exec S E A) (f : A → Exec S E B) (s s'' : S) (e : E)
      → (m >>= f) s ≡ (err e, s'')
      → (m s ≡ (err e, s'')) ⊎ ((a : A) × (s' : S) × (m s ≡ (ok a, s')) × (f a s' ≡ (err e, s'')))
  >>=-eq-err m f s s'' e h = after (m s) h
    where
      after :
          (r : Result E A × S)
          → continue r.0 f r.1 ≡ (err e, s'')
          → (r ≡ (err e, s'')) ⊎ ((a : A) × (s' : S) × (r ≡ (ok a, s')) × (f a s' ≡ (err e, s'')))
      after (ok a, s') x = inr (a, s', refl, x)
      after (err x, s') y = inl (cc)
