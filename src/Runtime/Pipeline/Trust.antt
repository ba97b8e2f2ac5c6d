-- ===== src/Runtime/Pipeline/Trust.antt =====
-- The artifacts that the stages of runtime/pipeline/runner.py hand on, as the gates see them.
use acds.Prelude.{
  ℕ, ◌+◌, ◌*◌, ◌≤◌, String, ◌≡◌, refl, sym, ◌∙◌, inl, inr, true, false, Option, none, some, List,
  [], ◌∷◌, ok, arith, eq_iff, opt_eq, ltb, Text, contains, All, Any, All-mono, lookup, has_key,
}
use acds.Runtime.Paths.{Inside}
use acds.Runtime.Artifacts.{
  Signature, absent, malformed, block, Grant, Proposal, ValidationResult, Plan, Lease,
}
use acds.Runtime.Signer.{
  Crypto, IsKeyPair, validation_signable, plan_signable, lease_signable, verify_attached_signature,
  verify-sign, sign_and_attach-form,
}
use acds.Runtime.Clock.{Platform, IsPlatform}
use acds.Runtime.Lease.{
  Capabilities, artifact_grants, build_capabilities_from_plan, issue_lease, valid,
  check_lease_validity, issuer,
}
use acds.Runtime.Lease.Times.{check_lease_validity-issue_lease, check_lease_validity-eq-valid}
use acds.Runtime.Lease.Grants.{
  IsLeaseOf, issue_lease-IsLeaseOf, filesystem_granted, test_execution_granted,
}
use acds.Runtime.ToolGate.{bind_lease}
use acds.Runtime.ExecutionGate.Failures.{IsCovered}
use acds.Runtime.ExecutionGate.Chain.{IsTrusted}
use acds.Runtime.Validator.{Matcher, validate_proposal}
use acds.Runtime.Compiler.{compile_plan, signature_holds, unsigned_plan}
use acds.Runtime.Compiler.Steps.{compile_plan_sound, required_capabilities_iff}

self_covered : (paths : List Text) → All (λ pp. Any (Inside pp) paths) paths
self_covered [] = tt
self_covered (a ∷ paths) = (inl (inl refl), All-mono (λ pp h. inr h) paths (self_covered paths))

All-of_contains :
    (P : String → Type 0) (names : List String)
    → ((k : String) → contains k names ≡ true → P k)
    → All P names
unfolding contains
All-of_contains P [] h = tt
All-of_contains P (a ∷ names) h =
    (h a (ground (arith, eq_iff a a)), All-of_contains P names λ k e. h k (ground arith))

-- Under the issuer's key pair, a lease is issued, and its signature verifies.
pub issue_lease-returns :
    (c : Crypto) (p : Platform) (t : ℕ) (lease_id : String) (plan : Plan) (caps : Capabilities)
    (d : ℕ) (node_id : String)
    → IsKeyPair c issuer
    → (l : Lease) × (issue_lease c p t lease_id plan caps d node_id ≡ ok l)
      × (verify_attached_signature c l ≡ ok true)
unfolding issue_lease
issue_lease-returns c p t lease_id plan caps d node_id k = verify-sign c issuer _ k refl

-- Under the validator's key pair, a proposal is validated, and the result's signature verifies.
pub validate_proposal-returns :
    (c : Crypto) (m : Matcher) (validation_id : String) (proposal : Proposal)
    → IsKeyPair c "validator_signer"
    → (r : ValidationResult) × (validate_proposal c m validation_id proposal ≡ ok r)
      × (verify_attached_signature c r ≡ ok true)
unfolding validate_proposal
validate_proposal-returns c m validation_id proposal k = verify-sign c "validator_signer" _ k refl

-- The result names the proposal by its id.
pub validate_proposal-about :
    (c : Crypto) (m : Matcher) (validation_id : String) (proposal : Proposal) (r : ValidationResult)
    (id : String)
    → validate_proposal c m validation_id proposal ≡ ok r
    → proposal.proposal_id ≡ some id
    → r.proposal_id ≡ proposal.proposal_id
unfolding validate_proposal
validate_proposal-about c m validation_id proposal r id e named =
    let (g, form) = sign_and_attach-form c "validator_signer" _ r e in rw form (simp (named))

signature_holds-verified :
    (c : Crypto) (r : ValidationResult)
    → verify_attached_signature c r ≡ ok true
    → signature_holds c r r.signature ≡ ok true
signature_holds-verified c r h = by_cases r.signature
  where
    by_cases : (s : Signature) → signature_holds c r s ≡ ok true
    by_cases absent = refl
    by_cases malformed = h
    by_cases (block x y) = h

-- Under the compiler's key pair, a result that passed, verifies and is about the proposal compiles.
pub compile_plan-returns :
    (c : Crypto) (plan_id : String) (proposal : Proposal) (r : ValidationResult)
    → IsKeyPair c "compiler_signer"
    → r.status ≡ some "passed"
    → r.proposal_id ≡ proposal.proposal_id
    → verify_attached_signature c r ≡ ok true
    → (plan : Plan) × (compile_plan c plan_id proposal r ≡ ok plan)
      × (verify_attached_signature c plan ≡ ok true)
unfolding compile_plan
compile_plan-returns c plan_id proposal r k passed same verified =
    let (plan, e, v) = verify-sign c "compiler_signer" (unsigned_plan plan_id proposal r) k refl in
    (
      plan,
      simp (
        passed,
        same,
        opt_eq_refl proposal.proposal_id,
        signature_holds-verified c r verified,
        e,
      ),
      v,
    )
  where
    opt_eq_refl : (a : Option String) → opt_eq a a ≡ true
    opt_eq_refl none = refl
    opt_eq_refl (some s) = (eq_iff s s).1 refl

-- The artifacts of one run: the lease was issued at `issued` for the plan, the plan was compiled
-- from the result, and the result is that of the proposal.
pub record IsRunOf (c : Crypto) (p : Platform) (m : Matcher) (issued : ℕ) (proposal : Proposal)
    (r : ValidationResult) (plan : Plan) (l : Lease) : Type 0 where
  pub validation_id : String
  pub plan_id : String
  pub lease_id : String
  pub node_id : String
  pub validated : validate_proposal c m validation_id proposal ≡ ok r
  pub compiled : compile_plan c plan_id proposal r ≡ ok plan
  pub leased :
      issue_lease c p issued lease_id plan (build_capabilities_from_plan plan) 300 node_id ≡ ok l

module _ (c : Crypto) (p : Platform) (m : Matcher) (issued : ℕ) (proposal : Proposal)
    (r : ValidationResult) (plan : Plan) (l : Lease)
    (x : IsRunOf c p m issued proposal r plan l) where
  pub lease-IsLeaseOf : IsLeaseOf p issued x.lease_id plan l
  lease-IsLeaseOf = issue_lease-IsLeaseOf c p issued x.lease_id plan x.node_id l x.leased

  has_key-granted :
      (key : String) (g : Grant)
      → lookup key (artifact_grants plan) ≡ some g
      → has_key key l.granted_capabilities ≡ true
  has_key-granted key g e = rw (lease-IsLeaseOf.granted, has_key) (rw e)

  required-IsCovered : (k : String) → contains k plan.required_capabilities ≡ true → IsCovered l k
  unfolding lookup
  required-IsCovered k e =
      elim ((required_capabilities_iff c x.plan_id proposal r plan k x.compiled).0 e) [
        | inl (same, _) ↦ rw same (
          "filesystem",
          refl,
          has_key-granted "filesystem" _ (filesystem_granted plan (rw same at e)),
          rw lease-IsLeaseOf.denied,
        )
        | inr (same, _) ↦ rw same (
          "test_execution",
          refl,
          has_key-granted "test_execution" _ (test_execution_granted plan (rw same at e)),
          rw lease-IsLeaseOf.denied,
        )
      ]

  -- The lease of a run is valid for the 300 seconds from when it was issued.
  pub lease-valid :
      IsPlatform p
      → (now : ℕ) → issued ≤ now
      → now ≤ issued + 300 * 1000000
      → check_lease_validity p now l ≡ ok valid
  lease-valid ip now a b =
      rw
        (check_lease_validity-issue_lease c p issued x.lease_id plan
          (build_capabilities_from_plan plan) 300 x.node_id l ip x.leased now)
        (let early : ltb now issued ≡ false = ground arith in
          let late : ltb (issued + 300 * 1000000) now ≡ false = ground arith in rw early (rw late))

  -- The artifacts of a run are trusted by the execution gate while the lease is valid.
  pub run-IsTrusted :
      (now : ℕ)
      → check_lease_validity p now l ≡ ok valid
      → verify_attached_signature c r ≡ ok true
      → verify_attached_signature c plan ≡ ok true
      → verify_attached_signature c l ≡ ok true
      → IsTrusted c p now plan r l
  run-IsTrusted now v vr vp vl =
      let (passed, same, _, of) = compile_plan_sound c x.plan_id proposal r plan x.compiled in
      record {
        plan_verified = vp;
        result_verified = vr;
        same_proposal = of.proposal ∙ sym same;
        same_validation = of.validation;
        lease_valid = v;
        lease_bound = lease-IsLeaseOf.bound;
        covered = All-of_contains (IsCovered l) plan.required_capabilities required-IsCovered;
        in_scope = inr (inr (rw lease-IsLeaseOf.paths (self_covered plan.allowed_paths)));
        lease_verified = vl;
        passed = passed;
      }

-- A valid lease binds, and the gate then holds what the lease grants.
pub bind_lease-valid :
    (p : Platform) (now : ℕ) (l : Lease)
    → check_lease_validity p now l ≡ ok valid
    → bind_lease p now l
      ≡ ok (record {
        lease = some l;
        granted_capabilities = l.granted_capabilities;
        allowed_paths = l.allowed_paths;
        denied_capabilities = l.denied_capabilities;
      })
unfolding bind_lease
bind_lease-valid p now l h =
    let (active, inside) = (check_lease_validity-eq-valid p now l).0 h in simp (active, inside)
