-- ===== src/Runtime/Artifacts.antt =====
-- The JSON artifacts that the runtime passes along, as records. A field of type `Option` may be
-- missing; a list or a text that may be missing holds the default that every reader of it gives.
-- Texts that are walked (paths, commands, intents) are lists of code points.
use acds.Prelude.{ℕ, String, Bool, Option, List, Text}

-- `artifact.get("signature")`: missing or falsy, truthy but no dictionary, or a dictionary.
pub data Signature : Type 0 where
  absent : Signature
  malformed : Signature
  block : Option String → Option String → Signature

pub record Modification : Type 0 where
  pub operation : Option String
  pub path : Text
  pub content : Text

pub record AcceptanceTest : Type 0 where
  pub test_id : Option String
  pub command : Text

pub record Proposal : Type 0 where
  pub proposal_id : Option String
  pub intent : Text
  pub allowed_paths : List Text
  pub denied_paths : List Text
  pub target_paths : List Text
  pub declared_side_effects : List Text
  pub modifications : List Modification
  pub acceptance_tests : List AcceptanceTest

-- What a check of the validator objects to, a constructor for each message.
pub data Violation : Type 0 where
  schema_error : String → Violation
  traversal : Text → Violation
  not_allowed : Text → Violation
  in_denied : Text → Violation
  undeclared : Text → Violation
  non_deterministic : Option String → String → Violation
  self_certifying : String → Violation

-- An entry of `checks`; `detail` is the list whose messages the source joins.
pub record Check : Type 0 where
  pub check_name : String
  pub passed : Bool
  pub detail : List Violation

pub record ValidationResult : Type 0 where
  pub validation_id : Option String
  pub proposal_id : Option String
  pub status : Option String
  pub checks : List Check
  pub signature : Signature

-- `step-001`, `step-002`, ... for modifications, `test-<test_id>` for acceptance tests.
pub data StepId : Type 0 where
  step_number : ℕ → StepId
  test_name : String → StepId

pub record Step : Type 0 where
  pub step_id : StepId
  pub operation : String
  pub path : Text
  pub content : Text
  pub required_capability : String

pub record Plan : Type 0 where
  pub plan_id : Option String
  pub proposal_id : Option String
  pub validation_id : Option String
  pub steps : List Step
  pub required_capabilities : List String
  pub allowed_paths : List Text
  pub signature : Signature

-- The value of a key of `granted_capabilities` that is a dictionary.
pub record Config : Type 0 where
  pub write : Option Bool
  pub allowed : Option Bool
  pub allowed_paths : List Text

-- Any value of such a key: JSON null, another value that is no dictionary (with its truth value), or
-- a dictionary.
pub data Grant : Type 0 where
  null : Grant
  plain : Bool → Grant
  config : Config → Grant

pub record Lease : Type 0 where
  pub lease_id : String
  pub node_id : String
  pub execution_plan_id : Option String
  pub granted_capabilities : List (String × Grant)
  pub denied_capabilities : List (String × Bool)
  pub max_files_modified : ℕ
  pub allowed_paths : List Text
  pub valid_from : Option String
  pub expires_at : Option String
  pub revocation_status : String
  pub signature : Signature

pub record Revocation : Type 0 where
  pub lease_id : String
  pub revoked_at : String
  pub reason : String
  pub signature : Signature

-- `status` of an action of the executor.
pub data ActionStatus : Type 0 where
  completed failed skipped : ActionStatus

-- `detail` of an action, a constructor for each message.
pub data Detail : Type 0 where
  fine traversal_blocked gate_denied file_missing unknown_operation raised skipped_step : Detail

pub record Action : Type 0 where
  pub step_id : StepId
  pub operation : String
  pub path : Text
  pub status : ActionStatus
  pub detail : Detail

-- `output` of a test: why it did not run, or how its command ended.
pub data Output : Type 0 where
  metacharacter test_denied exited timed_out test_raised skipped_test : Output

pub record TestResult : Type 0 where
  pub test_id : StepId
  pub passed : Bool
  pub output : Output

pub data ExecutionStatus : Type 0 where
  run_completed run_partial run_failed : ExecutionStatus

pub record ExecutionRecord : Type 0 where
  pub record_id : String
  pub plan_id : Option String
  pub lease_id : String
  pub actions : List Action
  pub artifacts_generated : List Text
  pub acceptance_results : List TestResult
  pub execution_status : ExecutionStatus
  pub executor_node_id : String
  pub executed_at : String
  pub signature : Signature

-- A receipt of the exchange, with neither a fingerprint nor notes: its callers pass none.
pub record Receipt : Type 0 where
  pub receipt_id : String
  pub artifact_id : Text
  pub origin_node : String
  pub received_at : String
  pub validation_status : String
  pub signature : Signature

-- What is signed.
pub data Artifact : Type 0 where
  validation : ValidationResult → Artifact
  plan : Plan → Artifact
  lease : Lease → Artifact
  revocation : Revocation → Artifact
  execution : ExecutionRecord → Artifact
  receipt : Receipt → Artifact
