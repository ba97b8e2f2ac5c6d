-- ===== src/Prelude/Texts.antt =====
-- Python strings that the program walks: lists of code points, with the string methods it calls.
use Prim.Native.Nat.{ℕ}
use Prim.Native.Char.{code}
use Prim.Native.String.{String}
use mathlib.Core.Path.{◌≡◌, refl, ap}
use mathlib.Core.Logic.{◌↔◌, inl, inr}
use mathlib.Core.Bool.{Bool, true, false, ◌&&◌, ◌||◌}
use mathlib.Core.List.{List, [], ◌∷◌, ◌++◌}
use native.Mathlib.Omega.{arith}
use acds.Prelude.Tests.{◌==◌, if◌then◌else◌, Bool-cases}
use acds.Prelude.Lists.{is_empty}

abbrev pub Text : Type 0
Text = List ℕ

abbrev pub codes : String → Text
codes (String.◌∷◌ head tail) = code head ∷ codes tail
codes String.[] = []

-- `s == t`
unfoldable pub text_eq : Text → Text → Bool
text_eq [] [] = true
text_eq (a ∷ s) (b ∷ t) = a == b && text_eq s t
text_eq _ _ = false

pub text_eq_iff : (s t : Text) → (text_eq s t ≡ true) ↔ (s ≡ t)
unfolding text_eq
text_eq_iff [] [] = ground arith
text_eq_iff [] (b ∷ t) = ground arith
text_eq_iff (a ∷ s) [] = ground arith
text_eq_iff (a ∷ s) (b ∷ t) = ground (arith, text_eq_iff s t)

-- `s.startswith(p)`
unfoldable pub starts_with : Text → Text → Bool
starts_with s [] = true
starts_with [] (b ∷ p) = false
starts_with (a ∷ s) (b ∷ p) = a == b && starts_with s p

pub starts_with_iff : (s p : Text) → (starts_with s p ≡ true) ↔ ((r : Text) × (s ≡ p ++ r))
unfolding starts_with
starts_with_iff s [] = (λ _. (s, refl), λ _. refl)
starts_with_iff [] (b ∷ p) = (λ h. cc, λ h. cc (h.1))
starts_with_iff (a ∷ s) (b ∷ p) = (
  λ h.
      let both : (a ≡ b) × (starts_with s p ≡ true) = ground arith in
      let (r, e) = (starts_with_iff s p).0 both.1 in (r, cc (both.0, e)),
  λ h.
      let both : (a ≡ b) × (s ≡ p ++ h.0) = ground (arith, h.1) in
      let later = (starts_with_iff s p).1 (h.0, both.1) in ground (arith, later),
)

-- `p in s`
unfoldable pub has_part : Text → Text → Bool
has_part p [] = is_empty p
has_part p (a ∷ s) = starts_with (a ∷ s) p || has_part p s

-- `s.rstrip("/")`
abbrev pub slash : ℕ
slash = b'/'

unfoldable pub strip_slash : Text → Text
strip_slash [] = []
strip_slash (a ∷ s) = let t = strip_slash s in if is_empty t && a == slash then [] else a ∷ t

pub text_eq_refl : (s : Text) → text_eq s s ≡ true
text_eq_refl s = (text_eq_iff s s).1 refl

append-cons-not-empty : (s : Text) (c : ℕ) (u : Text) → is_empty (s ++ c ∷ u) ≡ false
append-cons-not-empty [] c u = refl
append-cons-not-empty (a ∷ s) c u = refl

pub strip_slash-append :
    (s t : Text)
    → strip_slash (s ++ t)
      ≡ (if is_empty (strip_slash t) then strip_slash s else s ++ strip_slash t)
unfolding strip_slash
strip_slash-append [] t = elim (strip_slash t) as (λ u. u ≡ (if is_empty u then [] else u)) [
  | [] ↦ refl
  | c ∷ u ↦ refl
]
strip_slash-append (a ∷ s) t =
    rw (strip_slash-append s t)
      (elim (strip_slash t)
        as (λ u.
          (let v = (if is_empty u then strip_slash s else s ++ u) in
            if is_empty v && a == slash then [] else a ∷ v)
          ≡ (if is_empty u
              then (if is_empty (strip_slash s) && a == slash then [] else a ∷ strip_slash s)
              else a ∷ (s ++ u))) [ [] ↦ refl | c ∷ u ↦ rw (append-cons-not-empty s c u) ])

pub strip_slash_idem : (s : Text) → strip_slash (strip_slash s) ≡ strip_slash s
unfolding strip_slash
strip_slash_idem [] = refl
strip_slash_idem (a ∷ s) = ground (arith, strip_slash_idem s)

-- `p` stands somewhere in `s`.
abbrev pub HasPart : Text → Text → Type 0
HasPart p s = (before : Text) × (after : Text) × (s ≡ before ++ (p ++ after))

pub has_part_iff : (p s : Text) → (has_part p s ≡ true) ↔ HasPart p s
unfolding has_part
has_part_iff [] [] = (λ h. ([], [], refl), λ h. refl)
has_part_iff (c ∷ p) [] = (λ h. cc, λ (a, b, e). absurd (no_part a b e))
  where
    no_part : (a b : Text) → [] ≡ a ++ (c ∷ (p ++ b)) → ⊥
    no_part [] b e = cc
    no_part (x ∷ a) b e = cc
has_part_iff p (a ∷ s) = (
  λ h. elim (Bool-cases (starts_with (a ∷ s) p)) [
    | inl e ↦ let (r, f) = (starts_with_iff (a ∷ s) p).0 e in ([], r, f)
    | inr n ↦ let (u, v, f) = (has_part_iff p s).0 (rw n at h) in (a ∷ u, v, ap (λ t. a ∷ t) f)
  ],
  λ (u, v, e). found (has_part_iff p s).1 u v e,
)
  where
    found :
        (HasPart p s → has_part p s ≡ true)
        → (u v : Text) → a ∷ s ≡ u ++ (p ++ v)
        → (starts_with (a ∷ s) p || has_part p s) ≡ true
    found ih [] v e = let h = (starts_with_iff (a ∷ s) p).1 (v, e) in ground arith
    found ih (x ∷ u) v e = let h = ih (u, v, cc) in ground arith
