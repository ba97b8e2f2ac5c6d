-- ===== src/Integration/Nodes/Runs.antt =====
-- swarm/integration/execution_pipeline.py: what any sequence of nodes leaves in the lineage.
use acds.Prelude.{
  ℕ, zero, suc, String, Text, ◌≡◌, refl, Option, none, some, List, [], ◌∷◌, arith, Result, ok, err,
  length, length-append, lookup, Bool-cases, inl, inr,
}
use acds.Integration.Contracts.{
  Fields, RequestConstraints, ExecutionContext, Output, CapabilityResponse,
}
use acds.Integration.Retry.{Fault, RetryStrategy}
use acds.Integration.Client.Attempts.{Provider, ClientState}
use acds.Integration.Nodes.Lineage.{
  PipelineState, Document, get_chain, lineage_entry, record_lineage,
}
use acds.Integration.Nodes.{
  Workspace, NodeFault, after_artifact, artifact_path, CognitiveNodeConfig, ControlNodeConfig,
  PolicyNodeConfig, set_type, write_artifact, ask_client, after_cognitive, execute_cognitive_node,
  after_control, execute_control_node, after_policy, execute_policy_node,
}
use acds.Integration.Nodes.Chains.{IsLinked, record_lineage-IsLinked}

-- The lineage of each process is a chain, and so many entries were left.
pub record Keeps {W : Type 0} (n : ℕ) (s : PipelineState W) : Type 0 where
  pub chained : IsLinked s
  pub count : length s.entries ≡ n

module _ {W : Type 0} (providers : List (String × Provider W)) (fresh : ℕ → String)
    (hash_data : Document → String) (lower strip : Text → Text) (workspace : Workspace) where
  record_lineage-Keeps :
      (context : ExecutionContext) (node_type capability : String) (node_input : Fields)
      (output : Document) (artifacts : List String) (response : Option CapabilityResponse) (n : ℕ)
      (s : PipelineState W)
      → Keeps n s
      → Keeps (suc n) (
          record_lineage fresh hash_data context node_type capability node_input output artifacts
            response s)
  unfolding record_lineage
  record_lineage-Keeps context node_type capability node_input output artifacts response n s h =
      record {
        chained =
            record_lineage-IsLinked fresh hash_data context node_type capability node_input output
              artifacts response s h.chained;
        count = omega (
          arith,
          h.count,
          length-append {0} s.entries (
              lineage_entry fresh hash_data context node_type capability node_input output artifacts
                response s
              ∷ []),
        );
      }

  write_artifact-Keeps :
      (context : ExecutionContext) (kind : Option String) (output : Output) (n : ℕ)
      (s : PipelineState W)
      → Keeps n s
      → Keeps n
          (write_artifact providers fresh hash_data lower strip workspace context kind output s).1
  unfolding write_artifact
  write_artifact-Keeps context none output n s h = h
  write_artifact-Keeps context (some kind) output n s h =
      elim (Bool-cases (
        workspace.writable
          (artifact_path providers fresh hash_data lower strip workspace context kind))) [
            | inl y ↦
                rw y (record { chained = record { linked = h.chained.linked }; count = h.count })
            | inr other ↦ rw other h
          ]

  ask_client-Keeps :
      (strategy : RetryStrategy) (capability : String) (input : Fields)
      (constraints : RequestConstraints) (context : ExecutionContext) (n : ℕ) (s : PipelineState W)
      → Keeps n s
      → Keeps n
          (ask_client providers fresh hash_data lower strip workspace strategy capability input
            constraints context s).1
  unfolding ask_client
  ask_client-Keeps strategy capability input constraints context n s h = record {
    chained = record { linked = h.chained.linked };
    count = h.count;
  }

  -- A pipeline that has run no node.
  abbrev pub new_pipeline : ClientState W → PipelineState W
  new_pipeline client = record {
    client = client;
    entries = [];
    last_entry_by_process = [];
    files = [];
    issued = 0;
  }

  -- One node more, if it did not raise.
  abbrev pub one_more : {A : Type 0} → Result NodeFault A → ℕ → ℕ
  one_more (ok a) n = suc n
  one_more (err fault) n = n

  -- The states of a pipeline after any cognitive, control and policy nodes, of any processes in any
  -- order, with how many of them returned.
  pub data Ran : ℕ → PipelineState W → Type 0 where
    created : (client : ClientState W) → Ran zero (new_pipeline client)
    cognitive :
        {n : ℕ} {s : PipelineState W} (config : CognitiveNodeConfig) (input : Fields)
        (context : ExecutionContext)
        → Ran n s
        → Ran
            (one_more
              (execute_cognitive_node providers fresh hash_data lower strip workspace config input
                context s).0
              n)
            (execute_cognitive_node providers fresh hash_data lower strip workspace config input
              context s).1
    control :
        {n : ℕ} {s : PipelineState W} (config : ControlNodeConfig) (input : Fields)
        (context : ExecutionContext)
        → Ran n s
        → Ran
            (suc n)
            (execute_control_node providers fresh hash_data lower strip workspace config input
              context s).1
    policy :
        {n : ℕ} {s : PipelineState W} (config : PolicyNodeConfig) (input : Fields)
        (context : ExecutionContext)
        → Ran n s
        → Ran
            (suc n)
            (execute_policy_node providers fresh hash_data lower strip workspace config input
              context s).1

  artifact-Keeps :
      (config : CognitiveNodeConfig) (input : Fields) (context : ExecutionContext)
      (response : CapabilityResponse) (written : Result NodeFault (List String)) (n : ℕ)
      (s : PipelineState W)
      → Keeps n s
      → Keeps
          (one_more
            (after_artifact providers fresh hash_data lower strip workspace config input context
              response written s).0
            n)
          (after_artifact providers fresh hash_data lower strip workspace config input context
            response written s).1
  unfolding after_artifact
  artifact-Keeps config input context response (err fault) n s h = h
  artifact-Keeps config input context response (ok artifacts) n s h =
      record_lineage-Keeps context _ _ input _ artifacts (some response) n s h

  cognitive-Keeps :
      (config : CognitiveNodeConfig) (input : Fields) (context : ExecutionContext)
      (answered : Result Fault CapabilityResponse) (n : ℕ) (s : PipelineState W)
      → Keeps n s
      → Keeps
          (one_more
            (after_cognitive providers fresh hash_data lower strip workspace config input context
              answered s).0
            n)
          (after_cognitive providers fresh hash_data lower strip workspace config input context
            answered s).1
  unfolding after_cognitive
  cognitive-Keeps config input context (err fault) n s h =
      record_lineage-Keeps context _ _ input _ _ none n s h
  cognitive-Keeps config input context (ok response) n s h =
      let kind = set_type config.output_artifact_type in
      let (written, s') =
        write_artifact providers fresh hash_data lower strip workspace context kind response.output
          s in
      artifact-Keeps config input context response written n s'
        (write_artifact-Keeps context kind response.output n s h)

  control-Keeps :
      (config : ControlNodeConfig) (input : Fields) (context : ExecutionContext)
      (answered : Result Fault CapabilityResponse) (n : ℕ) (s : PipelineState W)
      → Keeps n s
      → Keeps
          (suc n)
          (after_control providers fresh hash_data lower strip workspace config input context
            answered s).1
  unfolding after_control
  control-Keeps config input context (err fault) n s h =
      record_lineage-Keeps context _ _ input _ _ none n s h
  control-Keeps config input context (ok response) n s h =
      record_lineage-Keeps context _ _ input _ _ (some response) n s h

  policy-Keeps :
      (config : PolicyNodeConfig) (input : Fields) (context : ExecutionContext)
      (answered : Result Fault CapabilityResponse) (n : ℕ) (s : PipelineState W)
      → Keeps n s
      → Keeps
          (suc n)
          (after_policy providers fresh hash_data lower strip workspace config input context
            answered s).1
  unfolding after_policy
  policy-Keeps config input context (err fault) n s h =
      record_lineage-Keeps context _ _ _ _ _ none n s h
  policy-Keeps config input context (ok response) n s h =
      record_lineage-Keeps context _ _ _ _ _ (some response) n s h

  -- Each cognitive, control or policy node that returns, whether its request succeeds or fails, leaves
  -- exactly one entry of lineage, and one that raises since its artifact cannot be written leaves
  -- none; and for every process its entries in order are one chain: the first has no parent, each
  -- other the entry before it, and the last is the one remembered.
  pub Ran-Keeps : {n : ℕ} {s : PipelineState W} → Ran n s → Keeps n s
  unfolding execute_cognitive_node execute_control_node execute_policy_node get_chain lookup
  Ran-Keeps (created client) = record { chained = record { linked = λ p. refl }; count = refl }
  Ran-Keeps (cognitive {n} {s} config input context r) =
      cognitive-Keeps config input context _ n _
        (ask_client-Keeps _ config.capability input config.constraints context n s (Ran-Keeps r))
  Ran-Keeps (control {n} {s} config input context r) =
      control-Keeps config input context _ n _
        (ask_client-Keeps _ config.capability input _ context n s (Ran-Keeps r))
  Ran-Keeps (policy {n} {s} config input context r) =
      policy-Keeps config input context _ n _
        (ask_client-Keeps _ config.policy_capability _ _ context n s (Ran-Keeps r))
