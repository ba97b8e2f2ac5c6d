-- ===== src/Examples/Artifacts.antt =====
-- The artifacts of the example proposal: the signer, the validator, the compiler and the lease manager.
use acds.Prelude.{
  ◌+◌, ◌*◌, String, ◌≡◌, ◌≢◌, refl, ◌↔◌, ◌⊎◌, true, some, [], ok, contains, if◌then◌else◌, ltb,
}
use acds.Runtime.Artifacts.{absent, ValidationResult, Plan, Lease}
use acds.Runtime.Signer.{
  verify-sign, sign_and_attach, verify_attached_signature, validation_signable, plan_signable,
  lease_signable, revocation_signable,
}
use acds.Runtime.Lease.{
  build_capabilities_from_plan, issue_lease, issuer, early, expired, valid, check_lease_validity,
}
use acds.Runtime.Lease.Times.{check_lease_validity-issue_lease}
use acds.Runtime.ExecutionGate.{check}
use acds.Runtime.ExecutionGate.Chain.{IsTrusted, check-allowed_iff}
use acds.Runtime.Validator.{validate_proposal}
use acds.Runtime.Validator.Admissible.{IsAdmissible, validate_proposal-status}
use acds.Runtime.Compiler.{compile_plan}
use acds.Runtime.Compiler.Steps.{IsPlanOf, compile_plan_sound, required_capabilities_iff}
use acds.Runtime.Pipeline.Trust.{
  validate_proposal-returns, validate_proposal-about, compile_plan-returns, issue_lease-returns,
}
use acds.Examples.Toys.{platform, platform-IsPlatform, crypto, key_pair, matcher, proposal}
use acds.Examples.Runs.{proposal-IsAdmissible}

-- The artifacts of the example proposal.
abbrev pub validated :
    (r : ValidationResult) × (validate_proposal crypto matcher "v1" proposal ≡ ok r)
    × (verify_attached_signature crypto r ≡ ok true)
validated = validate_proposal-returns crypto matcher "v1" proposal (key_pair "validator_signer")

pub compiled :
    (plan : Plan) × (compile_plan crypto "pl1" proposal validated.0 ≡ ok plan)
    × (verify_attached_signature crypto plan ≡ ok true)
compiled =
    compile_plan-returns crypto "pl1" proposal validated.0 (key_pair "compiler_signer")
      ((validate_proposal-status crypto matcher "v1" proposal validated.0 validated.1).0.1
        proposal-IsAdmissible)
      (validate_proposal-about crypto matcher "v1" proposal validated.0 "p1" validated.1 refl)
      validated.2

abbrev pub plan : Plan
plan = compiled.0

leased :
    (l : Lease) × (issue_lease crypto platform 0 "l1" plan
        (build_capabilities_from_plan plan)
        300
        "node"
      ≡ ok l)
    × (verify_attached_signature crypto l ≡ ok true)
leased =
    issue_lease-returns crypto platform 0 "l1" plan (build_capabilities_from_plan plan) 300 "node"
      (key_pair issuer)

abbrev issued : Lease
issued = leased.0

verify-sign_example :
    (b : Plan) × (sign_and_attach crypto plan "compiler_signer" ≡ ok b)
    × (verify_attached_signature crypto b ≡ ok true)
verify-sign_example = verify-sign crypto "compiler_signer" plan (key_pair "compiler_signer") refl

validate_proposal-status_example :
    ((validated.0.status ≡ some "passed") ↔ IsAdmissible matcher proposal)
    × ((validated.0.status ≡ some "passed") ⊎ (validated.0.status ≡ some "failed"))
validate_proposal-status_example =
    validate_proposal-status crypto matcher "v1" proposal validated.0 validated.1

compile_plan_sound_example :
    (validated.0.status ≡ some "passed")
    × (validated.0.proposal_id ≡ proposal.proposal_id)
    × ((validated.0.signature ≡ absent) ⊎ (verify_attached_signature crypto validated.0 ≡ ok true))
    × IsPlanOf proposal validated.0 "pl1" plan
compile_plan_sound_example = compile_plan_sound crypto "pl1" proposal validated.0 plan compiled.1

abbrev test_execution : String
test_execution = "TEST_EXECUTION"

required_capabilities_iff_example : (contains test_execution plan.required_capabilities ≡ true) ↔ (
    ((test_execution ≡ "FILESYSTEM_WRITE") × (proposal.modifications ≢ []))
    ⊎ ((test_execution ≡ "TEST_EXECUTION") × (proposal.acceptance_tests ≢ [])))
required_capabilities_iff_example =
    required_capabilities_iff crypto "pl1" proposal validated.0 plan test_execution compiled.1

check_lease_validity-issue_lease_example :
    check_lease_validity platform 7 issued
    ≡ ok (if ltb 7 0 then early else if ltb (0 + 300 * 1000000) 7 then expired else valid)
check_lease_validity-issue_lease_example =
    check_lease_validity-issue_lease crypto platform 0 "l1" plan (build_capabilities_from_plan plan)
      300 "node" issued platform-IsPlatform leased.1 7

check-allowed_iff_example :
    (check crypto platform 7 plan validated.0 issued ≡ ok (record { allowed = true; reasons = [] }))
    ↔ IsTrusted crypto platform 7 plan validated.0 issued
check-allowed_iff_example = check-allowed_iff crypto platform 7 plan validated.0 issued
