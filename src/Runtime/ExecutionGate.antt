-- ===== src/Runtime/ExecutionGate.antt =====
-- runtime/gate/execution_gate.py: the gate that verifies the whole chain of artifacts before a plan
-- is executed. Each failure is a constructor in place of its message.
pub mod Failures
pub mod Chain
use acds.Prelude.{
  ℕ, String, Bool, true, false, not, ◌&&◌, Option, none, some, List, [], ◌∷◌, ◌++◌, Result, ok, err,
  ◌>>=◌, if◌then◌else◌, str_eq, opt_eq, Text, text_eq, is_empty, any, lookup, flag, has_key, as_set,
}
use acds.Runtime.Paths.{covers}
use acds.Runtime.Faults.{Fault}
use acds.Runtime.Artifacts.{
  Signature, absent, malformed, block, ValidationResult, Plan, Grant, Lease,
}
use acds.Runtime.Signer.{
  Crypto, Signable, plan_signable, validation_signable, lease_signable, verify_attached_signature,
}
use acds.Runtime.Clock.{Platform}
use acds.Runtime.Lease.{Validity, valid, is_valid, check_lease_validity}

pub data Failure : Type 0 where
  plan_unverified plan_unsigned : Failure
  validation_unverified validation_unsigned : Failure
  proposal_mismatch validation_mismatch : Failure
  lease_invalid : Validity → Failure
  plan_binding : Failure
  unknown_capability not_granted explicitly_denied : String → Failure
  path_not_covered : Text → Failure
  lease_unverified lease_unsigned : Failure
  validation_not_passed : Option String → Failure

-- `reasons` is empty where the source has "All checks passed".
pub record GateDecision : Type 0 where
  pub allowed : Bool
  pub reasons : List Failure

abbrev pub cap_map : List (String × String)
cap_map =
    ("FILESYSTEM_WRITE", "filesystem")
    ∷ ("FILESYSTEM_READ", "filesystem")
    ∷ ("TEST_EXECUTION", "test_execution")
    ∷ ("ARTIFACT_GENERATION", "artifact_generation")
    ∷ ("REPOSITORY_MODIFICATION", "repository_modification")
    ∷ []

-- A failure unless the test passes.
abbrev require : Bool → Failure → List Failure
require true f = []
require false f = f ∷ []

abbrev signed : Signature → Bool
signed absent = false
signed _ = true

-- Checks 1, 2 and 9: the failure for a missing signature, or that for one that does not verify.
unfoldable pub signature_failures :
    {A : Type 0} ⦃s : Signable A⦄ → Crypto → A → Failure → Failure → Result Fault (List Failure)
signature_failures ⦃s⦄ c a unsigned unverified =
    if signed (s.signature a)
    then (do v ← verify_attached_signature c a; ok (require v unverified))
    else ok (unsigned ∷ [])

abbrev covered_by : Lease → String → Option String → List Failure
covered_by lease name none = unknown_capability name ∷ []
covered_by lease name (some lease_key) =
    require (has_key lease_key lease.granted_capabilities) (not_granted name)
    ++ require (not (flag lease_key lease.denied_capabilities)) (explicitly_denied name)

-- Check 7
unfoldable pub capability_failures : Lease → List String → List Failure
capability_failures lease [] = []
capability_failures lease (name ∷ names) =
    covered_by lease name (lookup name cap_map) ++ capability_failures lease names

-- Check 8
unfoldable pub path_failures : List Text → List Text → List Failure
path_failures lease_paths [] = []
path_failures lease_paths (pp ∷ paths) =
    require (any (covers pp) lease_paths) (path_not_covered pp) ++ path_failures lease_paths paths

unfoldable pub scope_failures : List Text → List Text → List Failure
unfolding path_failures
scope_failures plan_paths lease_paths =
    if not (is_empty plan_paths) && not (is_empty lease_paths)
    then path_failures lease_paths plan_paths
    else []

-- The list `failures` once the checks that may raise have returned.
unfoldable pub failures :
    Plan
    → ValidationResult
    → Lease
    → List Failure
    → List Failure
    → Validity
    → List Failure
    → List Failure
failures plan validation_result lease plan_signature validation_signature validity lease_signature =
    plan_signature
    ++ (validation_signature
        ++ (require (opt_eq plan.proposal_id validation_result.proposal_id) proposal_mismatch
            ++ (require (opt_eq plan.validation_id validation_result.validation_id)
                  validation_mismatch
                ++ (require (is_valid validity) (lease_invalid validity)
                    ++ (require (opt_eq lease.execution_plan_id plan.plan_id) plan_binding
                        ++ (capability_failures lease (as_set str_eq plan.required_capabilities)
                            ++ (scope_failures (as_set text_eq plan.allowed_paths)
                                  (as_set text_eq lease.allowed_paths)
                                ++ (lease_signature
                                    ++ require (opt_eq validation_result.status (some "passed"))
                                        (validation_not_passed validation_result.status)))))))))

unfoldable pub check :
    Crypto → Platform → ℕ → Plan → ValidationResult → Lease → Result Fault GateDecision
check c p now plan validation_result lease = do
  plan_signature ← signature_failures c plan plan_unsigned plan_unverified
  validation_signature ←
      signature_failures c validation_result validation_unsigned validation_unverified
  validity ← check_lease_validity p now lease
  lease_signature ← signature_failures c lease lease_unsigned lease_unverified
  let found =
      failures plan validation_result lease plan_signature validation_signature validity
        lease_signature
  ok (record { allowed = is_empty found; reasons = found })
