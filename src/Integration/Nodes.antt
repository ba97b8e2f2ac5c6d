-- ===== src/Integration/Nodes.antt =====
-- swarm/integration/execution_pipeline.py, node_schemas.py and lineage.py: the nodes of a swarm that
-- ask the client, and the lineage that each of them leaves.
pub mod Lineage
pub mod Chains
pub mod Runs
pub mod Policies
use Prim.Native.String.{◌++◌}
use acds.Prelude.{
  ℕ, ◌+◌, String, Text, Bool, true, false, not, ◌||◌, Option, none, some, List, [], ◌∷◌, Result, ok,
  err, if◌then◌else◌, str_eq, codes, text_eq, has_part, any, is_empty, insert, lookup,
}
use acds.Prelude.States.{Exec}
use acds.Integration.Contracts.{
  Fields, RequestConstraints, ExecutionContext, CapabilityRequest, Output, CapabilityResponse,
}
use acds.Integration.Retry.{Fault, RetryStrategy}
use acds.Integration.Client.Attempts.{Provider, ClientState}
use acds.Integration.Client.Requests.{request}
use acds.Integration.Nodes.Lineage.{
  LineageEntry, PipelineState, Document, no_output, fields, answer, record_lineage,
}

pub record CognitiveNodeConfig : Type 0 where
  pub capability : String
  pub constraints : RequestConstraints
  pub output_artifact_type : Option String
  pub retry_on_failure : Bool
  pub max_retries : ℕ

-- Without `decision_field`, which nothing reads.
pub record ControlNodeConfig : Type 0 where
  pub capability : String
  pub branches : List (String × String)

pub record PolicyNodeConfig : Type 0 where
  pub policy_capability : String
  pub policy_id : String
  pub block_on_deny : Bool

-- Without its duration and the response, which the lineage holds.
pub record NodeResult : Type 0 where
  pub success : Bool
  pub output : Option Output
  pub artifacts : List String
  pub error : Option Fault

-- `RequestConstraints(local_only=True)`
unfoldable pub local_constraints : RequestConstraints
local_constraints = record {
  local_only = true;
  max_latency_ms = none;
  sensitivity = "medium";
  preferred_provider = none;
}

-- `RetryStrategy()`
unfoldable pub default_strategy : RetryStrategy
default_strategy = record { max_retries = 2; backoff_base_ms = 500 }

-- `if config.output_artifact_type`, a text that is neither `None` nor empty.
abbrev set_type : Option String → Option String
set_type none = none
set_type (some kind) = if str_eq kind "" then none else some kind

-- `branches.get(decision, "")`, for a decision as code points.
unfoldable pub exact_branch : Text → List (String × String) → String
unfolding text_eq
exact_branch decision [] = ""
exact_branch decision ((key, target) ∷ rest) =
    if text_eq (codes key) decision then target else exact_branch decision rest

-- `mkdir` or `write_text` raised for an artifact.
pub data NodeFault : Type 0 where
  not_written : String → NodeFault

-- The directory of the artifacts, and whether a file at a path can be written there.
pub record Workspace : Type 0 where
  pub root : String
  pub writable : String → Bool

-- The verdicts that allow.
unfoldable pub verdicts : List Text
verdicts = codes "allow" ∷ codes "pass" ∷ codes "approved" ∷ codes "true" ∷ codes "yes" ∷ []

-- `fresh n` is the `n`th random id, `hash_data` the hash of a document, `lower` and `strip` those of
-- Python's texts.
module _ {W : Type 0} (providers : List (String × Provider W)) (fresh : ℕ → String)
    (hash_data : Document → String) (lower strip : Text → Text) (workspace : Workspace) where
  -- `_write_artifact`
  unfoldable pub artifact_path : ExecutionContext → String → String
  artifact_path context kind =
      workspace.root ++ "/artifacts/" ++ context.process_id ++ "/" ++ context.node_id ++ "_" ++ kind
      ++ ".json"

  unfoldable pub write_artifact :
      ExecutionContext → Option String → Output → Exec (PipelineState W) NodeFault (List String)
  unfolding artifact_path insert
  write_artifact context none output s = (ok [], s)
  write_artifact context (some kind) output s =
      if workspace.writable (artifact_path context kind)
      then (
        ok (artifact_path context kind ∷ []),
        record s { files = insert (artifact_path context kind) output s.files },
      )
      else (err (not_written (artifact_path context kind)), s)

  -- `self._acds.request(req)` with a new request id.
  unfoldable pub ask_client :
      RetryStrategy
      → String
      → Fields
      → RequestConstraints
      → ExecutionContext
      → PipelineState W
      → Result Fault CapabilityResponse × PipelineState W
  ask_client strategy capability input constraints context s =
      let (answered, client) =
        request providers strategy
          (record {
            capability = capability;
            input = input;
            constraints = constraints;
            context = context;
            request_id = fresh s.issued;
          })
          s.client in
      (answered, record s { client = client; issued = s.issued + 1 })

  -- The lineage is recorded after the artifact is written; an exception of the write leaves the node.
  unfoldable pub after_artifact :
      CognitiveNodeConfig
      → Fields
      → ExecutionContext
      → CapabilityResponse
      → Result NodeFault (List String)
      → Exec (PipelineState W) NodeFault NodeResult
  after_artifact config node_input context response (err fault) s = (err fault, s)
  after_artifact config node_input context response (ok artifacts) s = (
    ok (record {
      success = true;
      output = some response.output;
      artifacts = artifacts;
      error = none;
    }),
    record_lineage fresh hash_data context "cognitive" config.capability node_input
        (answer response.output) artifacts (some response) s,
  )

  unfoldable pub after_cognitive :
      CognitiveNodeConfig
      → Fields
      → ExecutionContext
      → Result Fault CapabilityResponse
      → Exec (PipelineState W) NodeFault NodeResult
  unfolding write_artifact after_artifact
  after_cognitive config node_input context (err fault) s = (
    ok (record { success = false; output = none; artifacts = []; error = some fault }),
    record_lineage fresh hash_data context "cognitive" config.capability node_input no_output []
        none s,
  )
  after_cognitive config node_input context (ok response) s =
      let (written, s') =
        write_artifact context (set_type config.output_artifact_type) response.output s in
      after_artifact config node_input context response written s'

  -- `execute_cognitive_node`
  unfoldable pub execute_cognitive_node :
      CognitiveNodeConfig → Fields → ExecutionContext → Exec (PipelineState W) NodeFault NodeResult
  unfolding after_cognitive ask_client
  execute_cognitive_node config node_input context s =
      let (answered, s') =
        ask_client
          (record {
            max_retries = if config.retry_on_failure then config.max_retries else 0;
            backoff_base_ms = 500;
          })
          config.capability node_input config.constraints context s in
      after_cognitive config node_input context answered s'

  -- "Fuzzy: try partial match"
  unfoldable pub partial_branch : Text → List (String × String) → String
  unfolding has_part
  partial_branch decision [] = ""
  partial_branch decision ((key, target) ∷ rest) =
      if has_part (lower (codes key)) decision then target else partial_branch decision rest

  unfoldable pub branch_of : ControlNodeConfig → Text → String
  unfolding exact_branch partial_branch
  branch_of config decision =
      let branch = exact_branch decision config.branches in
      if str_eq branch "" then partial_branch decision config.branches else branch

  unfoldable pub after_control :
      ControlNodeConfig
      → Fields
      → ExecutionContext
      → Result Fault CapabilityResponse
      → PipelineState W
      → String × PipelineState W
  unfolding branch_of
  after_control config node_input context (err fault) s = (
    "",
    record_lineage fresh hash_data context "control" config.capability node_input no_output [] none
        s,
  )
  after_control config node_input context (ok response) s = (
    branch_of config (lower (strip (codes response.output.text))),
    record_lineage fresh hash_data context "control" config.capability node_input
        (answer response.output) [] (some response) s,
  )

  -- `execute_control_node`
  unfoldable pub execute_control_node :
      ControlNodeConfig → Fields → ExecutionContext → PipelineState W → String × PipelineState W
  unfolding after_control ask_client
  execute_control_node config node_input context s =
      let (answered, s') =
        ask_client default_strategy config.capability node_input local_constraints context s in
      after_control config node_input context answered s'

  -- `text in ("allow", ...)`
  unfoldable pub is_allowed : String → Bool
  unfolding any text_eq verdicts
  is_allowed text = any (text_eq (lower (strip (codes text)))) verdicts

  -- `policy_input`
  unfoldable pub policy_input : PolicyNodeConfig → Fields → Fields
  unfolding insert
  policy_input config node_input =
      if str_eq config.policy_id ""
      then node_input
      else insert "policy_id" config.policy_id node_input

  unfoldable pub after_policy :
      PolicyNodeConfig
      → Fields
      → ExecutionContext
      → Result Fault CapabilityResponse
      → PipelineState W
      → Bool × PipelineState W
  unfolding is_allowed policy_input
  after_policy config node_input context (err fault) s = (
    not config.block_on_deny,
    record_lineage fresh hash_data context "policy" config.policy_capability
        (policy_input config node_input) no_output [] none s,
  )
  after_policy config node_input context (ok response) s = (
    (if is_allowed response.output.text then true else not config.block_on_deny),
    record_lineage fresh hash_data context "policy" config.policy_capability
        (policy_input config node_input) (answer response.output) [] (some response) s,
  )

  -- `execute_policy_node`
  unfoldable pub execute_policy_node :
      PolicyNodeConfig → Fields → ExecutionContext → PipelineState W → Bool × PipelineState W
  unfolding after_policy ask_client
  execute_policy_node config node_input context s =
      let (answered, s') =
        ask_client default_strategy config.policy_capability (policy_input config node_input)
          local_constraints context s in
      after_policy config node_input context answered s'
