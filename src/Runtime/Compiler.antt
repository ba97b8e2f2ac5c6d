-- ===== src/Runtime/Compiler.antt =====
-- runtime/compiler/compiler.py: an execution plan from a validated proposal.
pub mod Steps
use Prim.Native.String.{compare}
use acds.Prelude.{
  ℕ, zero, suc, String, Bool, true, false, not, Option, none, some, List, [], ◌∷◌, ◌++◌, map,
  Result, ok, err, ◌>>=◌, if◌then◌else◌, str_eq, opt_eq, codes, lookup,
}
use acds.Runtime.Faults.{Fault, not_passed, proposal_mismatch, bad_signature}
use acds.Runtime.Artifacts.{
  Signature, absent, malformed, block, Modification, AcceptanceTest, Proposal, ValidationResult,
  Step, step_number, test_name, Plan,
}
use acds.Runtime.Signer.{
  Crypto, validation_signable, plan_signable, sign_and_attach, verify_attached_signature,
}
use acds.Runtime.Validator.{or_default}
use text.Mathlib.Text.{is_lt}

abbrev pub operation_capabilities : List (String × String)
operation_capabilities =
    ("create", "FILESYSTEM_WRITE")
    ∷ ("modify", "FILESYSTEM_WRITE")
    ∷ ("delete", "FILESYSTEM_WRITE")
    ∷ ("append", "FILESYSTEM_WRITE")
    ∷ []

unfoldable pub capability_of : String → String
capability_of operation = or_default "FILESYSTEM_WRITE" (lookup operation operation_capabilities)

-- The step of modification number `i + 1`.
abbrev pub modification_step : ℕ → Modification → Step
modification_step i mod_ =
    let operation = or_default "modify" mod_.operation in
    record {
      step_id = step_number (suc i);
      operation = operation;
      path = mod_.path;
      content = mod_.content;
      required_capability = capability_of operation;
    }

abbrev pub test_step : AcceptanceTest → Step
test_step test = record {
  step_id = test_name (or_default "unknown" test.test_id);
  operation = "run_test";
  path = test.command;
  content = [];
  required_capability = "TEST_EXECUTION";
}

unfoldable pub modification_steps : ℕ → List Modification → List Step
unfolding capability_of
modification_steps i [] = []
modification_steps i (mod_ ∷ mods) = modification_step i mod_ ∷ modification_steps (suc i) mods

unfoldable pub plan_steps : Proposal → List Step
unfolding modification_steps
plan_steps proposal =
    modification_steps zero proposal.modifications ++ map test_step proposal.acceptance_tests

-- `sorted(set)`: adding a value to a set kept in ascending order.
unfoldable pub add_sorted : String → List String → List String
add_sorted a [] = a ∷ []
add_sorted a (b ∷ names) =
    if str_eq a b
    then b ∷ names
    else if is_lt (compare a b)
    then a ∷ b ∷ names
    else b ∷ add_sorted a names

-- Each step adds its capability to the set.
unfoldable pub capabilities : List Step → List String
unfolding add_sorted
capabilities [] = []
capabilities (step ∷ steps) = add_sorted step.required_capability (capabilities steps)

-- "if validation_result.get("signature")": a missing signature is not verified here.
abbrev pub signature_holds : Crypto → ValidationResult → Signature → Result Fault Bool
signature_holds c validation_result absent = ok true
signature_holds c validation_result s = verify_attached_signature c validation_result

-- The plan before it is signed; `plan_id` is the fresh uuid.
unfoldable pub unsigned_plan : String → Proposal → ValidationResult → Plan
unfolding plan_steps capabilities
unsigned_plan plan_id proposal validation_result =
    let steps = plan_steps proposal in
    record {
      plan_id = some plan_id;
      proposal_id = proposal.proposal_id;
      validation_id = validation_result.validation_id;
      steps = steps;
      required_capabilities = capabilities steps;
      allowed_paths = proposal.allowed_paths;
      signature = absent;
    }

unfoldable pub compile_plan : Crypto → String → Proposal → ValidationResult → Result Fault Plan
unfolding unsigned_plan
compile_plan c plan_id proposal validation_result =
    if not (opt_eq validation_result.status (some "passed"))
    then err (not_passed validation_result.status)
    else if not (opt_eq validation_result.proposal_id proposal.proposal_id)
    then err (proposal_mismatch validation_result.proposal_id proposal.proposal_id)
    else do
      holds ← signature_holds c validation_result validation_result.signature
      let plan = unsigned_plan plan_id proposal validation_result
      if not holds then err bad_signature else sign_and_attach c plan "compiler_signer"
