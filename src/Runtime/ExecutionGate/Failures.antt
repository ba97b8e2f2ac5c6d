-- ===== src/Runtime/ExecutionGate/Failures.antt =====
-- When each check of runtime/gate/execution_gate.py adds no failure.
use acds.Prelude.{
  String, ◌≡◌, refl, ◌↔◌, ◌⊎◌, inl, inr, Bool, true, false, ◌&&◌, Option, none, some, List, [], ◌∷◌,
  ◌++◌, ok, arith, eq_iff, str_eq, opt_eq, Text, text_eq, text_eq_iff, is_empty, any_iff, Any, All,
  All-as_set, Any-as_set, as_set-eq-nil, All-mono, lookup, flag, has_key, as_set, Bool-cases,
  Option-cases, Result-cases,
}
use acds.Runtime.Paths.{covers, covers_iff, Inside}
use acds.Runtime.Artifacts.{Signature, absent, malformed, block, Lease}
use acds.Runtime.Signer.{
  Crypto, Signable, plan_signable, validation_signable, lease_signable, verify_attached_signature,
  verify-absent,
}
use acds.Runtime.ExecutionGate.{
  Failure, cap_map, require, covered_by, signature_failures, capability_failures, path_failures,
  scope_failures, signed,
}

-- The lease has the key of the capability and does not deny it.
abbrev pub IsCovered : Lease → String → Type 0
IsCovered lease name =
    (key : String) × (lookup name cap_map ≡ some key)
    × (has_key key lease.granted_capabilities ≡ true)
    × (flag key lease.denied_capabilities ≡ false)

pub opt_eq_iff : (a b : Option String) → (opt_eq a b ≡ true) ↔ (a ≡ b)
opt_eq_iff none none = ground arith
opt_eq_iff none (some b) = ground arith
opt_eq_iff (some a) none = ground arith
opt_eq_iff (some a) (some b) = ground (arith, eq_iff a b)

pub is_empty-append {ℓ} :
    {A : Type ℓ} (xs ys : List A) → is_empty (xs ++ ys) ≡ (is_empty xs && is_empty ys)
is_empty-append [] ys = refl
is_empty-append (x ∷ xs) ys = refl

pub is_empty-require : (b : Bool) (f : Failure) → is_empty (require b f) ≡ b
is_empty-require true f = refl
is_empty-require false f = refl

signed-absent : (g : Signature) → signed g ≡ false → g ≡ absent
signed-absent absent h = refl
signed-absent malformed h = cc
signed-absent (block r v) h = cc

require-eq-nil : (b : Bool) (f : Failure) → (require b f ≡ []) ↔ (b ≡ true)
require-eq-nil true f = ground arith
require-eq-nil false f = ground arith

-- No failure of a signature check is a verified signature.
pub signature_failures_iff :
    {A : Type 0} ⦃s : Signable A⦄ (c : Crypto) (a : A) (f g : Failure)
    → (signature_failures c a f g ≡ ok []) ↔ (verify_attached_signature c a ≡ ok true)
unfolding signature_failures
signature_failures_iff ⦃s⦄ c a f g = elim (Bool-cases (signed (s.signature a))) [
  | inl e ↦ rw e (elim (Result-cases (verify_attached_signature c a)) [
    | inl (v, h) ↦ rw h (ground (arith, require-eq-nil v g))
    | inr (x, h) ↦ rw h (ground arith)
  ])
  | inr e ↦ rw (e, verify-absent c a (signed-absent _ e)) (ground arith)
]

covered_by_iff :
    (lease : Lease) (name : String)
    → (is_empty (covered_by lease name (lookup name cap_map)) ≡ true) ↔ IsCovered lease name
covered_by_iff lease name = (
  λ h. elim (Option-cases (lookup name cap_map)) [
    | inl e ↦ absurd (ground arith)
    | inr (key, e) ↦ (key, e, ground arith, ground arith)
  ],
  λ (key, e, has, undenied). rw e (ground arith),
)

pub capability_failures_iff :
    (lease : Lease) (names : List String)
    → (is_empty (capability_failures lease names) ≡ true) ↔ All (IsCovered lease) names
unfolding capability_failures
capability_failures_iff lease [] = ground arith
capability_failures_iff lease (name ∷ names) = rw is_empty-append (
    let (f, g) = covered_by_iff lease name in
    let (f', g') = capability_failures_iff lease names in
    (
      λ h. (f (ground arith), f' (ground arith)),
      λ h. let a = g h.0 in let b = g' h.1 in ground arith,
    ))

path_failures_iff :
    (lease_paths paths : List Text)
    → (is_empty (path_failures lease_paths paths) ≡ true)
      ↔ All (λ pp. Any (Inside pp) lease_paths) paths
unfolding path_failures
path_failures_iff lease_paths [] = ground arith
path_failures_iff lease_paths (pp ∷ paths) = rw is_empty-append (
    rw is_empty-require (
      ground (
        arith,
        any_iff (covers pp) (Inside pp) (covers_iff pp) lease_paths,
        path_failures_iff lease_paths paths,
      )))

scope_failures_iff :
    (plan_paths lease_paths : List Text)
    → (is_empty (scope_failures plan_paths lease_paths) ≡ true) ↔ (
        (plan_paths ≡ []) ⊎ (lease_paths ≡ []) ⊎ All (λ pp. Any (Inside pp) lease_paths) plan_paths)
unfolding scope_failures
scope_failures_iff [] lease_paths = (λ h. inl refl, λ h. refl)
scope_failures_iff (pp ∷ paths) [] = (λ h. inr (inl refl), λ h. refl)
scope_failures_iff (pp ∷ paths) (lp ∷ lease_paths) =
    let (f, g) = path_failures_iff (lp ∷ lease_paths) (pp ∷ paths) in
    (
      λ h. inr (inr (f h)),
      λ h. elim h [ inl e ↦ absurd (cc) | inr r ↦ elim r [ inl e ↦ absurd (cc) | inr a ↦ g a ] ],
    )

pub eq_of_text_eq : (s t : Text) → text_eq s t ≡ true → s ≡ t
eq_of_text_eq s t = (text_eq_iff s t).0

pub eq_of_str_eq : (s t : String) → str_eq s t ≡ true → s ≡ t
eq_of_str_eq s t = (eq_iff s t).0

-- The scope check over the two sets of paths is the scope check over the two lists.
pub set_failures_iff :
    (plan_paths lease_paths : List Text)
    → (is_empty (scope_failures (as_set text_eq plan_paths) (as_set text_eq lease_paths)) ≡ true)
      ↔ ((plan_paths ≡ [])
          ⊎ (lease_paths ≡ [])
          ⊎ All (λ pp. Any (Inside pp) lease_paths) plan_paths)
set_failures_iff plan_paths lease_paths =
    let (f, g) = scope_failures_iff (as_set text_eq plan_paths) (as_set text_eq lease_paths) in
    let (pn, pn') = as_set-eq-nil text_eq plan_paths in
    let (ln, ln') = as_set-eq-nil text_eq lease_paths in
    (
      λ h. elim (f h) [
        | inl e ↦ inl (pn e)
        | inr r ↦ elim r [
          | inl e ↦ inr (inl (ln e))
          | inr a ↦ inr (inr (All-mono (λ pp. (each pp).0) plan_paths ((all plan_paths).0 a)))
        ]
      ],
      λ h. elim h [
        | inl e ↦ g (inl (pn' e))
        | inr r ↦ elim r [
          | inl e ↦ g (inr (inl (ln' e)))
          | inr a ↦ g (inr (inr ((all plan_paths).1 (All-mono (λ pp. (each pp).1) plan_paths a))))
        ]
      ],
    )
  where
    each : (pp : Text) → Any (Inside pp) (as_set text_eq lease_paths) ↔ Any (Inside pp) lease_paths
    each pp = Any-as_set text_eq (Inside pp) eq_of_text_eq lease_paths

    all :
        (xs : List Text)
        → All (λ pp. Any (Inside pp) (as_set text_eq lease_paths)) (as_set text_eq xs)
          ↔ All (λ pp. Any (Inside pp) (as_set text_eq lease_paths)) xs
    all = All-as_set text_eq (λ pp. Any (Inside pp) (as_set text_eq lease_paths)) eq_of_text_eq
