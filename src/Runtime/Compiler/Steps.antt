-- ===== src/Runtime/Compiler/Steps.antt =====
-- What a compiled plan holds, and when compilation refuses.
use acds.Prelude.{
  ℕ, zero, suc, String, ◌≡◌, ◌≢◌, refl, sym, ap, ◌∙◌, ◌⊎◌, ◌↔◌, inl, inr, true, Option, none, some,
  List, [], ◌∷◌, ◌++◌, map, ok, arith, eq_iff, if◌then◌else◌, str_eq, opt_eq, contains, Any, lookup,
  Bool-cases, Result-cases,
}
use acds.Runtime.Artifacts.{
  Signature, absent, Modification, AcceptanceTest, Proposal, ValidationResult, Step, Plan,
}
use acds.Runtime.Signer.{
  Crypto, validation_signable, plan_signable, sign_and_attach-form, verify_attached_signature,
}
use acds.Runtime.Compiler.{
  capability_of, test_step, modification_steps, plan_steps, add_sorted, capabilities,
  signature_holds, unsigned_plan, compile_plan,
}
use acds.Runtime.Validator.{or_default}

contains-add_sorted :
    (k a : String) (names : List String)
    → contains k (add_sorted a names) ≡ (if str_eq k a then true else contains k names)
unfolding contains add_sorted
contains-add_sorted k a [] = ground arith
contains-add_sorted k a (b ∷ names) =
    ground (arith, contains-add_sorted k a names, eq_iff a b, eq_iff k a, eq_iff k b)

-- The required capabilities of a list of steps are those that some step requires.
pub contains-capabilities :
    (k : String) (steps : List Step)
    → (contains k (capabilities steps) ≡ true) ↔ Any (λ (s : Step). k ≡ s.required_capability) steps
unfolding contains capabilities
contains-capabilities k [] = ground arith
contains-capabilities k (s ∷ steps) =
    rw contains-add_sorted
      (ground (arith, contains-capabilities k steps, eq_iff k s.required_capability))

-- Whatever the operation, a modification needs the capability to write.
pub capability_of-eq : (operation : String) → capability_of operation ≡ "FILESYSTEM_WRITE"
unfolding capability_of lookup
capability_of-eq operation = ground arith

opt_eq→≡ : (a b : Option String) → opt_eq a b ≡ true → a ≡ b
opt_eq→≡ none none h = refl
opt_eq→≡ none (some b) h = cc
opt_eq→≡ (some a) none h = cc
opt_eq→≡ (some a) (some b) h = ap some ((eq_iff a b).0 h)

-- What a plan that was compiled is made of.
pub record IsPlanOf (pr : Proposal) (vr : ValidationResult) (plan_id : String) (plan : Plan)
    : Type 0 where
  pub id : plan.plan_id ≡ some plan_id
  pub proposal : plan.proposal_id ≡ pr.proposal_id
  pub validation : plan.validation_id ≡ vr.validation_id
  pub steps : plan.steps ≡ plan_steps pr
  pub required : plan.required_capabilities ≡ capabilities (plan_steps pr)
  pub paths : plan.allowed_paths ≡ pr.allowed_paths

signature_holds_iff :
    (c : Crypto) (vr : ValidationResult) (s : Signature)
    → signature_holds c vr s ≡ ok true
    → (s ≡ absent) ⊎ (verify_attached_signature c vr ≡ ok true)
signature_holds_iff c vr absent h = inl refl
signature_holds_iff c vr _ h = inr h

-- A plan is compiled only from a result that passed, that is about this proposal, and whose
-- signature, if it has one, verifies; and it is the plan of that proposal and that result.
pub compile_plan_sound :
    (c : Crypto) (plan_id : String) (pr : Proposal) (vr : ValidationResult) (plan : Plan)
    → compile_plan c plan_id pr vr ≡ ok plan
    → (vr.status ≡ some "passed")
      × (vr.proposal_id ≡ pr.proposal_id)
      × ((vr.signature ≡ absent) ⊎ (verify_attached_signature c vr ≡ ok true))
      × IsPlanOf pr vr plan_id plan
unfolding compile_plan
compile_plan_sound c plan_id pr vr plan h = elim (Bool-cases (opt_eq vr.status (some "passed"))) [
  | inr n ↦ absurd (ground arith)
  | inl s ↦ elim (Bool-cases (opt_eq vr.proposal_id pr.proposal_id)) [
    | inr n ↦ absurd (ground arith)
    | inl i ↦ elim (Result-cases (signature_holds c vr vr.signature)) [
      | inr (x, e) ↦ absurd (ground arith)
      | inl (b, e) ↦ elim (Bool-cases b) [
        | inr n ↦ absurd (ground arith)
        | inl y ↦
            let (g, form) =
              sign_and_attach-form c "compiler_signer" (unsigned_plan plan_id pr vr) plan
                (ground arith) in
            (
              opt_eq→≡ _ _ s,
              opt_eq→≡ _ _ i,
              signature_holds_iff c vr vr.signature (e ∙ ap ok y),
              rw form (record {
                id = refl;
                proposal = refl;
                validation = refl;
                steps = refl;
                required = refl;
                paths = refl;
              }),
            )
      ]
    ]
  ]
]

write_of_modifications :
    (i : ℕ) (mods : List Modification) (tests : List AcceptanceTest) (k : String)
    → Any
        (λ (s : Step). k ≡ s.required_capability)
        (modification_steps i mods ++ map test_step tests)
    → ((k ≡ "FILESYSTEM_WRITE") × (mods ≢ [])) ⊎ ((k ≡ "TEST_EXECUTION") × (tests ≢ []))
unfolding modification_steps
write_of_modifications i [] [] k h = elim h [ ]
write_of_modifications i [] (t ∷ tests) k (inl e) = inr (e, λ x. cc)
write_of_modifications i [] (t ∷ tests) k (inr h) = elim (write_of_modifications i [] tests k h) [
  | inl (_, ne) ↦ absurd (ne refl)
  | inr (e, _) ↦ inr (e, λ x. cc)
]
write_of_modifications i (m ∷ mods) tests k (inl e) =
    inl (e ∙ capability_of-eq (or_default "modify" m.operation), λ x. cc)
write_of_modifications i (m ∷ mods) tests k (inr h) =
    elim (write_of_modifications (suc i) mods tests k h) [
      | inl (e, _) ↦ inl (e, λ x. cc)
      | inr t ↦ inr t
    ]

Any-append_right {ℓ} : {A : Type ℓ} (P : A → Type 0) (xs ys : List A) → Any P ys → Any P (xs ++ ys)
Any-append_right P [] ys h = h
Any-append_right P (x ∷ xs) ys h = inr (Any-append_right P xs ys h)

test_of_steps :
    (mods : List Step) (tests : List AcceptanceTest)
    → tests ≢ []
    → Any (λ (s : Step). "TEST_EXECUTION" ≡ s.required_capability) (mods ++ map test_step tests)
test_of_steps mods [] ne = absurd (ne refl)
test_of_steps mods (t ∷ tests) ne = Any-append_right _ mods _ (inl refl)

step_of_need :
    (i : ℕ) (mods : List Modification) (tests : List AcceptanceTest) (k : String)
    → ((k ≡ "FILESYSTEM_WRITE") × (mods ≢ [])) ⊎ ((k ≡ "TEST_EXECUTION") × (tests ≢ []))
    → Any
        (λ (s : Step). k ≡ s.required_capability)
        (modification_steps i mods ++ map test_step tests)
unfolding modification_steps
step_of_need i [] tests k (inl (e, ne)) = absurd (ne refl)
step_of_need i (m ∷ mods) tests k (inl (e, ne)) =
    inl (e ∙ sym (capability_of-eq (or_default "modify" m.operation)))
step_of_need i mods tests k (inr (e, ne)) =
    rw e (test_of_steps (modification_steps i mods) tests ne)

-- A compiled plan requires the capability to write exactly when there is a modification, the
-- capability to execute tests exactly when there is an acceptance test, and no other capability.
pub required_capabilities_iff :
    (c : Crypto) (plan_id : String) (pr : Proposal) (vr : ValidationResult) (plan : Plan)
    (k : String)
    → compile_plan c plan_id pr vr ≡ ok plan
    → (contains k plan.required_capabilities ≡ true) ↔ (
        ((k ≡ "FILESYSTEM_WRITE") × (pr.modifications ≢ []))
        ⊎ ((k ≡ "TEST_EXECUTION") × (pr.acceptance_tests ≢ [])))
unfolding plan_steps
required_capabilities_iff c plan_id pr vr plan k h =
    let (_, _, _, of) = compile_plan_sound c plan_id pr vr plan h in
    let (f, f') = contains-capabilities k (plan_steps pr) in
    rw of.required (
      λ e. write_of_modifications zero pr.modifications pr.acceptance_tests k (f e),
      λ d. f' (step_of_need zero pr.modifications pr.acceptance_tests k d),
    )
