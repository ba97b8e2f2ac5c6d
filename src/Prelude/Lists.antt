-- ===== src/Prelude/Lists.antt =====
-- Lists: tests over their items, membership by recursion, association lists.
use Prim.Native.Nat.{ℕ, suc, ◌+◌}
use Prim.Native.String.{String}
use mathlib.Core.Path.{◌≡◌, refl, sym, subst}
use mathlib.Core.Logic.{◌↔◌, ◌⊎◌, inl, inr}
use mathlib.Core.Bool.{Bool, true, false, ◌&&◌, ◌||◌}
use mathlib.Core.Option.{Option, none, some}
use mathlib.Core.List.{List, [], ◌∷◌, ◌++◌}
use native.Mathlib.Omega.{arith}
use text.Mathlib.TextEquality.{eq_iff}
use acds.Prelude.Tests.{str_eq, if◌then◌else◌, Bool-cases}

module _ {ℓ} {A : Type ℓ} where
  abbrev pub length : List A → ℕ
  length [] = 0
  length (x ∷ xs) = suc (length xs)

  -- `any(p(x) for x in xs)`
  unfoldable pub any : (A → Bool) → List A → Bool
  any p [] = false
  any p (x ∷ xs) = p x || any p xs

  -- `all(p(x) for x in xs)`
  unfoldable pub all : (A → Bool) → List A → Bool
  all p [] = true
  all p (x ∷ xs) = p x && all p xs

  -- `[x for x in xs if p(x)]`
  unfoldable pub keep : (A → Bool) → List A → List A
  keep p [] = []
  keep p (x ∷ xs) = let rest = keep p xs in if p x then x ∷ rest else rest

  abbrev pub is_empty : List A → Bool
  is_empty [] = true
  is_empty (x ∷ xs) = false

module _ {ℓ κ} {A : Type ℓ} where
  abbrev pub All : (A → Type κ) → List A → Type κ
  All P [] = Unit
  All P (x ∷ xs) = P x × All P xs

module _ {ℓ} {A : Type ℓ} where
  -- Some item of the list has the property.
  abbrev pub Any : (A → Type 0) → List A → Type 0
  Any P [] = ⊥
  Any P (x ∷ xs) = P x ⊎ Any P xs

  pub any_iff :
      (p : A → Bool) (P : A → Type 0)
      → ((x : A) → (p x ≡ true) ↔ P x)
      → (xs : List A) → (any p xs ≡ true) ↔ Any P xs
  unfolding any
  any_iff p P e [] = ground arith
  any_iff p P e (x ∷ xs) = ground (arith, e x, any_iff p P e xs)

  pub all_iff :
      (p : A → Bool) (P : A → Type 0)
      → ((x : A) → (p x ≡ true) ↔ P x)
      → (xs : List A) → (all p xs ≡ true) ↔ All P xs
  unfolding all
  all_iff p P e [] = ground arith
  all_iff p P e (x ∷ xs) = ground (arith, e x, all_iff p P e xs)

  pub length-append : (xs ys : List A) → length (xs ++ ys) ≡ length xs + length ys
  length-append [] ys = omega arith
  length-append (x ∷ xs) ys = omega (arith, length-append xs ys)

-- `a in xs` for a list of strings, and a dictionary with string keys as an association list.
unfoldable pub contains : String → List String → Bool
contains a [] = false
contains a (x ∷ xs) = str_eq a x || contains a xs

module _ {ℓ} {V : Type ℓ} where
  -- `d[key] = value`
  unfoldable pub insert : String → V → List (String × V) → List (String × V)
  insert key value ((other, old) ∷ rest) =
      if str_eq key other then (other, value) ∷ rest else (other, old) ∷ insert key value rest
  insert key value [] = (key, value) ∷ []

  -- `d.get(key)`
  unfoldable pub lookup : String → List (String × V) → Option V
  lookup key ((other, value) ∷ rest) = if str_eq key other then some value else lookup key rest
  lookup key [] = none

  pub lookup-insert :
      (key asked : String) (value : V) (dict : List (String × V))
      → lookup asked (insert key value dict)
        ≡ (if str_eq asked key then some value else lookup asked dict)
  unfolding lookup insert
  lookup-insert key asked value ((other, old) ∷ rest) = ground (
    arith,
    lookup-insert key asked value rest,
    eq_iff asked key,
    eq_iff key other,
    eq_iff asked other,
  )
  lookup-insert key asked value [] = refl

-- `d.get(k, False)` for a dictionary of flags.
abbrev pub flag : String → List (String × Bool) → Bool
flag k m = elim (lookup k m) [ none ↦ false | some b ↦ b ]

-- `k in d`
abbrev pub has_key {ℓ} : {V : Type ℓ} → String → List (String × V) → Bool
has_key k m = elim (lookup k m) [ none ↦ false | some _ ↦ true ]

-- `set(xs)`, each value once. Python's order of a set is arbitrary; here it is the list's.
module _ {ℓ} {A : Type ℓ} (eq : A → A → Bool) where
  unfoldable pub as_set : List A → List A
  as_set [] = []
  as_set (x ∷ xs) = let rest = as_set xs in if any (eq x) rest then rest else x ∷ rest

module _ {ℓ} {A : Type ℓ} (eq : A → A → Bool) (P : A → Type 0)
    (sound : (x y : A) → eq x y ≡ true → x ≡ y) where
  All-any : (x : A) (xs : List A) → any (eq x) xs ≡ true → All P xs → P x
  unfolding any
  All-any x [] h a = cc
  All-any x (y ∷ xs) h a = elim (Bool-cases (eq x y)) [
    | inl e ↦ subst P (sym (sound x y e)) a.0
    | inr n ↦ All-any x xs (rw n at h) a.1
  ]

  -- A property holds of all items of a list exactly when it holds of the values in its set.
  pub All-as_set : (xs : List A) → All P (as_set eq xs) ↔ All P xs
  unfolding as_set
  All-as_set [] = (λ h. h, λ h. h)
  All-as_set (x ∷ xs) = elim (Bool-cases (any (eq x) (as_set eq xs))) [
    | inl e ↦ (
      λ h.
          let a : All P (as_set eq xs) = rw e at h in
          (All-any x (as_set eq xs) e a, (All-as_set xs).0 a),
      λ h. rw e ((All-as_set xs).1 h.1),
    )
    | inr n ↦ (
      λ h. let a : P x × All P (as_set eq xs) = rw n at h in (a.0, (All-as_set xs).0 a.1),
      λ h. rw n (h.0, (All-as_set xs).1 h.1),
    )
  ]

  Any-any : (x : A) (xs : List A) → any (eq x) xs ≡ true → P x → Any P xs
  unfolding any
  Any-any x [] h px = cc
  Any-any x (y ∷ xs) h px = elim (Bool-cases (eq x y)) [
    | inl e ↦ inl (subst P (sound x y e) px)
    | inr n ↦ inr (Any-any x xs (rw n at h) px)
  ]

  -- A property holds of some item of a list exactly when it holds of some value in its set.
  pub Any-as_set : (xs : List A) → Any P (as_set eq xs) ↔ Any P xs
  unfolding as_set
  Any-as_set [] = (λ h. h, λ h. h)
  Any-as_set (x ∷ xs) = elim (Bool-cases (any (eq x) (as_set eq xs))) [
    | inl e ↦ (
      λ h. let a : Any P (as_set eq xs) = rw e at h in inr ((Any-as_set xs).0 a),
      λ h. rw e (elim h [ inl px ↦ Any-any x (as_set eq xs) e px | inr a ↦ (Any-as_set xs).1 a ]),
    )
    | inr n ↦ (
      λ h.
          let a : P x ⊎ Any P (as_set eq xs) = rw n at h in
          elim a [ inl px ↦ inl px | inr b ↦ inr ((Any-as_set xs).0 b) ],
      λ h. rw n (elim h [ inl px ↦ inl px | inr b ↦ inr ((Any-as_set xs).1 b) ]),
    )
  ]

module _ {ℓ} {A : Type ℓ} where
  pub as_set-eq-nil : (eq : A → A → Bool) (xs : List A) → (as_set eq xs ≡ []) ↔ (xs ≡ [])
  unfolding as_set any
  as_set-eq-nil eq [] = ground arith
  as_set-eq-nil eq (x ∷ xs) = ground arith

  pub All-mono {κ μ} :
      {P : A → Type κ} {Q : A → Type μ}
      → ((x : A) → P x → Q x)
      → (xs : List A) → All P xs
      → All Q xs
  All-mono f [] h = tt
  All-mono f (x ∷ xs) h = (f x h.0, All-mono f xs h.1)
