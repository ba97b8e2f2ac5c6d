-- ===== src/Runtime/ExecutionGate/Chain.antt =====
-- Exactly when the execution gate allows, stated apart from its tests.
use acds.Prelude.{
  ℕ, ◌≡◌, refl, ap, ◌∙◌, ◌↔◌, ◌⊎◌, inl, inr, true, some, List, [], ◌∷◌, ok, arith, str_eq, is_empty,
  Any, All, All-as_set, as_set, Result-cases,
}
use acds.Runtime.Paths.{Inside}
use acds.Runtime.Artifacts.{ValidationResult, Plan, Lease}
use acds.Runtime.Signer.{
  Crypto, plan_signable, validation_signable, lease_signable, verify_attached_signature,
}
use acds.Runtime.Clock.{Platform}
use acds.Runtime.Lease.{Validity, valid, is_valid, check_lease_validity}
use acds.Runtime.ExecutionGate.{
  Failure, plan_unsigned, plan_unverified, validation_unsigned, validation_unverified,
  lease_unsigned, lease_unverified, failures, signature_failures, check,
}
use acds.Runtime.ExecutionGate.Failures.{
  IsCovered, opt_eq_iff, is_empty-append, is_empty-require, signature_failures_iff,
  capability_failures_iff, set_failures_iff, eq_of_str_eq,
}

-- The whole chain of trust.
pub record IsTrusted (c : Crypto) (p : Platform) (now : ℕ) (plan : Plan) (result : ValidationResult)
    (lease : Lease) : Type 0 where
  pub plan_verified : verify_attached_signature c plan ≡ ok true
  pub result_verified : verify_attached_signature c result ≡ ok true
  pub same_proposal : plan.proposal_id ≡ result.proposal_id
  pub same_validation : plan.validation_id ≡ result.validation_id
  pub lease_valid : check_lease_validity p now lease ≡ ok valid
  pub lease_bound : lease.execution_plan_id ≡ plan.plan_id
  pub covered : All (IsCovered lease) plan.required_capabilities
  pub in_scope :
      (plan.allowed_paths ≡ [])
      ⊎ (lease.allowed_paths ≡ [])
      ⊎ All (λ pp. Any (Inside pp) lease.allowed_paths) plan.allowed_paths
  pub lease_verified : verify_attached_signature c lease ≡ ok true
  pub passed : result.status ≡ some "passed"

-- What must hold for the checks that cannot raise to add no failure to those of the others.
record IsClear (plan : Plan) (result : ValidationResult) (lease : Lease) (f₁ f₂ : List Failure)
    (v : Validity) (f₃ : List Failure) : Type 0 where
  plan_clear : f₁ ≡ []
  result_clear : f₂ ≡ []
  lease_clear : f₃ ≡ []
  same_proposal : plan.proposal_id ≡ result.proposal_id
  same_validation : plan.validation_id ≡ result.validation_id
  is_valid_lease : v ≡ valid
  bound : lease.execution_plan_id ≡ plan.plan_id
  covered : All (IsCovered lease) plan.required_capabilities
  in_scope :
      (plan.allowed_paths ≡ [])
      ⊎ (lease.allowed_paths ≡ [])
      ⊎ All (λ pp. Any (Inside pp) lease.allowed_paths) plan.allowed_paths
  passed : result.status ≡ some "passed"

eq_nil : {A : Type 0} (xs : List A) → (is_empty xs ≡ true) ↔ (xs ≡ [])
eq_nil [] = ground arith
eq_nil (x ∷ xs) = ground arith

is_valid_iff : (v : Validity) → (is_valid v ≡ true) ↔ (v ≡ valid)
is_valid_iff v = ground arith

ruleset emptiness = (is_empty-append, is_empty-require)

failures_iff :
    (plan : Plan) (result : ValidationResult) (lease : Lease) (f₁ f₂ : List Failure) (v : Validity)
    (f₃ : List Failure)
    → (is_empty (failures plan result lease f₁ f₂ v f₃) ≡ true)
      ↔ IsClear plan result lease f₁ f₂ v f₃
unfolding failures
failures_iff plan result lease f₁ f₂ v f₃ = simp emptiness (
    let (a, a') = eq_nil f₁ in
    let (b, b') = eq_nil f₂ in
    let (d, d') = eq_nil f₃ in
    let (m, m') = opt_eq_iff plan.proposal_id result.proposal_id in
    let (n, n') = opt_eq_iff plan.validation_id result.validation_id in
    let (q, q') = is_valid_iff v in
    let (r, r') = opt_eq_iff lease.execution_plan_id plan.plan_id in
    let (k, k') = capability_failures_iff lease (as_set str_eq plan.required_capabilities) in
    let (u, u') = All-as_set str_eq (IsCovered lease) eq_of_str_eq plan.required_capabilities in
    let (s, s') = set_failures_iff plan.allowed_paths lease.allowed_paths in
    let (t, t') = opt_eq_iff result.status (some "passed") in
    (
      λ h. record {
        plan_clear = a (ground arith);
        result_clear = b (ground arith);
        lease_clear = d (ground arith);
        same_proposal = m (ground arith);
        same_validation = n (ground arith);
        is_valid_lease = q (ground arith);
        bound = r (ground arith);
        covered = u (k (ground arith));
        in_scope = s (ground arith);
        passed = t (ground arith);
      },
      λ c. rw (a' c.plan_clear) (
          rw (b' c.result_clear) (
            rw (m' c.same_proposal) (
              rw (n' c.same_validation) (
                rw (q' c.is_valid_lease) (
                  rw (r' c.bound) (
                    rw (k' (u' c.covered))
                      (rw (s' c.in_scope) (rw (d' c.lease_clear) (rw (t' c.passed)))))))))),
    ))

-- The gate allows exactly when the whole chain of trust holds: three verified signatures, matching
-- ids, a valid lease bound to the plan, that covers each required capability and, if it restricts
-- the paths at all, each of the plan's paths, and a validation that passed.
pub check-allowed_iff :
    (c : Crypto) (p : Platform) (now : ℕ) (plan : Plan) (result : ValidationResult) (lease : Lease)
    → (check c p now plan result lease ≡ ok (record { allowed = true; reasons = [] }))
      ↔ IsTrusted c p now plan result lease
unfolding check
check-allowed_iff c p now plan result lease = (
  λ h. elim (Result-cases (signature_failures c plan plan_unsigned plan_unverified)) [
    | inr (x, e) ↦ absurd (ground arith)
    | inl (f₁, e₁) ↦
        elim (Result-cases
          (signature_failures c result validation_unsigned validation_unverified)) [
            | inr (x, e) ↦ absurd (ground arith)
            | inl (f₂, e₂) ↦ elim (Result-cases (check_lease_validity p now lease)) [
              | inr (x, e) ↦ absurd (ground arith)
              | inl (v, e₃) ↦
                  elim (Result-cases (signature_failures c lease lease_unsigned lease_unverified)) [
                    | inr (x, e) ↦ absurd (ground arith)
                    | inl (f₃, e₄) ↦
                        trusted f₁ f₂ v f₃ e₁ e₂ e₃ e₄
                          ((failures_iff plan result lease f₁ f₂ v f₃).0 (ground arith))
                  ]
            ]
          ]
  ],
  λ t.
      let clear : IsClear plan result lease [] [] valid [] = record {
        plan_clear = refl;
        result_clear = refl;
        lease_clear = refl;
        same_proposal = t.same_proposal;
        same_validation = t.same_validation;
        is_valid_lease = refl;
        bound = t.lease_bound;
        covered = t.covered;
        in_scope = t.in_scope;
        passed = t.passed;
      } in
      let empty = (eq_nil _).0 ((failures_iff plan result lease [] [] valid []).1 clear) in
      let s₁ = (signature_failures_iff c plan plan_unsigned plan_unverified).1 t.plan_verified in
      let s₂ =
        (signature_failures_iff c result validation_unsigned validation_unverified).1
          t.result_verified in
      let s₃ =
        (signature_failures_iff c lease lease_unsigned lease_unverified).1 t.lease_verified in
      simp (s₁, s₂, t.lease_valid, s₃, empty),
)
  where
    trusted :
        (f₁ f₂ : List Failure) (v : Validity) (f₃ : List Failure)
        → signature_failures c plan plan_unsigned plan_unverified ≡ ok f₁
        → signature_failures c result validation_unsigned validation_unverified ≡ ok f₂
        → check_lease_validity p now lease ≡ ok v
        → signature_failures c lease lease_unsigned lease_unverified ≡ ok f₃
        → IsClear plan result lease f₁ f₂ v f₃
        → IsTrusted c p now plan result lease
    trusted f₁ f₂ v f₃ e₁ e₂ e₃ e₄ k = record {
      plan_verified = (signature_failures_iff c plan _ _).0 (e₁ ∙ ap ok k.plan_clear);
      result_verified = (signature_failures_iff c result _ _).0 (e₂ ∙ ap ok k.result_clear);
      same_proposal = k.same_proposal;
      same_validation = k.same_validation;
      lease_valid = e₃ ∙ ap ok k.is_valid_lease;
      lease_bound = k.bound;
      covered = k.covered;
      in_scope = k.in_scope;
      lease_verified = (signature_failures_iff c lease _ _).0 (e₄ ∙ ap ok k.lease_clear);
      passed = k.passed;
    }
