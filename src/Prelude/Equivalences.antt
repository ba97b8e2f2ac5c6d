-- ===== src/Prelude/Equivalences.antt =====
-- Chains of equivalences, and those of Boolean operators.
use mathlib.Core.Path.{◌≡◌, refl}
use mathlib.Core.Logic.{◌↔◌, ◌⊎◌, inl, inr}
use mathlib.Core.Bool.{Bool, true, false, not, ◌||◌}

pub iff_trans : {A B C : Type 0} → (A ↔ B) → (B ↔ C) → (A ↔ C)
iff_trans f g = (λ a. g.0 (f.0 a), λ c. f.1 (g.1 c))

pub iff_and : {A B C D : Type 0} → (A ↔ B) → (C ↔ D) → ((A × C) ↔ (B × D))
iff_and f g = (λ (a, c). (f.0 a, g.0 c), λ (b, d). (f.1 b, g.1 d))

pub iff_or : {A B C D : Type 0} → (A ↔ B) → (C ↔ D) → ((A ⊎ C) ↔ (B ⊎ D))
iff_or f g = (
  λ h. elim h [ inl a ↦ inl (f.0 a) | inr c ↦ inr (g.0 c) ],
  λ h. elim h [ inl b ↦ inl (f.1 b) | inr d ↦ inr (g.1 d) ],
)

pub not-true_iff : (b : Bool) (P : Type 0) → ((b ≡ true) ↔ P) → ((not b ≡ true) ↔ (¬ P))
not-true_iff true P e = (λ h. absurd (cc), λ h. absurd (h (e.0 refl)))
not-true_iff false P e = (λ h p. absurd (cc (e.1 p)), λ h. refl)

pub not_or_iff : (a b : Bool) → (not (a || b) ≡ true) ↔ ((a ≡ false) × (b ≡ false))
not_or_iff true b = (λ h. absurd (cc), λ h. absurd (cc (h.0)))
not_or_iff false true = (λ h. absurd (cc), λ h. absurd (cc (h.1)))
not_or_iff false false = (λ h. (refl, refl), λ h. refl)
