-- ===== src/Examples/Providers.antt =====
-- Requests for a provider, and the nodes that make them.
use acds.Prelude.{
  ◌+◌, ◌≤◌, Result, ok, refl, ℕ, zero, suc, String, ◌≡◌, ◌↔◌, ◌⊎◌, true, false, none, some, List,
  [], ◌∷◌, Text,
}
use acds.Integration.Contracts.{CapabilityRequest, CapabilityResponse, ExecutionContext}
use acds.Integration.Policy.{evaluate}
use acds.Integration.Policy.Eligibility.{IsEligible, evaluate-allowed_iff}
use acds.Integration.Retry.{Fault, RetryStrategy}
use acds.Integration.Client.Attempts.{Provider, raised, returned, ClientState}
use acds.Integration.Client.Scoring.{get_capable_providers, select_provider}
use acds.Integration.Client.Requests.{request}
use acds.Integration.Client.Ranking.{Selects, select_provider-Selects}
use acds.Integration.Client.Histories.{
  IsLatest, answered, start, latencies, remembered, Reach-IsLatest,
}
use acds.Integration.Client.Turns.{calls_to}
use acds.Integration.Client.Calls.{Answers, request-Answers}
use acds.Integration.Nodes.Lineage.{PipelineState, Document}
use acds.Integration.Nodes.{Workspace, PolicyNodeConfig, CognitiveNodeConfig, execute_policy_node}
use acds.Integration.Nodes.Runs.{new_pipeline, created, policy, Keeps, Ran-Keeps}
use acds.Integration.Nodes.Policies.{IsApproved, execute_policy_node_iff}

abbrev node_context : ExecutionContext
node_context = record {
  process_id = "run-1";
  node_id = "n1";
  swarm_id = "swarm";
  correlation_id = "c";
}

abbrev sample_request : CapabilityRequest
sample_request = record {
  capability = "text.generate";
  input = ("prompt", "write") ∷ [];
  constraints = record {
    local_only = true;
    max_latency_ms = some 700;
    sensitivity = "high";
    preferred_provider = some "ollama";
  };
  context = node_context;
  request_id = "r";
}

evaluate-allowed_iff_example :
    ((evaluate sample_request "ollama").allowed ≡ true) ↔ IsEligible sample_request "ollama"
evaluate-allowed_iff_example = evaluate-allowed_iff sample_request "ollama"

-- A provider that raises while the world counts down, and one that answers `allow`.
abbrev flaky : Provider ℕ
flaky prompt system temperature zero = (
  returned
      (record { success = true; output = "allow"; latency_ms = 9; error = none; metadata = [] }),
  zero,
)
flaky prompt system temperature (suc n) = (raised "down" 5, n)

abbrev steady : Provider ℕ
steady prompt system temperature n = (
  returned
      (record { success = true; output = "allow"; latency_ms = 40; error = none; metadata = [] }),
  n,
)

abbrev both : List (String × Provider ℕ)
both = ("ollama", flaky) ∷ ("apple_intelligence", steady) ∷ []

select_provider-Selects_example :
    Selects both sample_request
      (("ollama", 900 ∷ 800 ∷ []) ∷ [])
      (get_capable_providers "text.generate")
      (select_provider both sample_request (("ollama", 900 ∷ 800 ∷ []) ∷ []))
select_provider-Selects_example =
    select_provider-Selects both sample_request (("ollama", 900 ∷ 800 ∷ []) ∷ [])

abbrev twice : RetryStrategy
twice = record { max_retries = 2; backoff_base_ms = 500 }

abbrev fresh_client : ClientState ℕ
fresh_client = record { latency_history = []; world = 1; activity = [] }

request-Answers_example :
    Answers both twice sample_request fresh_client (request both twice sample_request fresh_client)
    × ((p : String)
        → calls_to p (request both twice sample_request fresh_client).1.activity
          ≤ calls_to p fresh_client.activity + (2 + 1))
request-Answers_example = request-Answers both twice sample_request fresh_client

-- A client of which one request was made.
abbrev one_request : Result Fault CapabilityResponse × ClientState ℕ
one_request = request both twice sample_request fresh_client

answer_of : (r : CapabilityResponse) × (one_request ≡ (ok r, one_request.1))
unfolding request evaluate
answer_of = (_, refl)

Reach-IsLatest_example :
    IsLatest
      (latencies "ollama" ((answer_of.0.provider_id, answer_of.0.latency_ms) ∷ []))
      (remembered "ollama" one_request.1.latency_history)
Reach-IsLatest_example =
    Reach-IsLatest both (answered twice sample_request (start {s = fresh_client} refl) answer_of.1)
      "ollama"

abbrev ids : ℕ → String
ids n = "id"

abbrev no_hash : Document → String
no_hash d = "hash"

abbrev office : Workspace
office = record { root = "/ws"; writable = λ path. true }

abbrev same_text : Text → Text
same_text t = t

abbrev blocking : PolicyNodeConfig
blocking = record { policy_capability = "policy.evaluate"; policy_id = "p"; block_on_deny = true }

abbrev thinker : CognitiveNodeConfig
thinker = record {
  capability = "text.generate";
  constraints = sample_request.constraints;
  output_artifact_type = some "draft";
  retry_on_failure = true;
  max_retries = 1;
}

abbrev one_pipeline : PipelineState ℕ
one_pipeline = new_pipeline both ids no_hash same_text same_text office fresh_client

execute_policy_node_iff_example :
    ((execute_policy_node both ids no_hash same_text same_text office blocking [] node_context
        one_pipeline).0
      ≡ true)
    ↔ ((blocking.block_on_deny ≡ false)
        ⊎ IsApproved both ids no_hash same_text same_text office blocking [] node_context
            one_pipeline)
execute_policy_node_iff_example =
    execute_policy_node_iff both ids no_hash same_text same_text office blocking [] node_context
      one_pipeline

abbrev two_nodes : PipelineState ℕ
two_nodes =
    (execute_policy_node both ids no_hash same_text same_text office blocking [] node_context
      (execute_policy_node both ids no_hash same_text same_text office blocking [] node_context
        one_pipeline).1).1

Ran-Keeps_example : Keeps 2 two_nodes
Ran-Keeps_example =
    Ran-Keeps both ids no_hash same_text same_text office
      (policy blocking [] node_context (policy blocking [] node_context (created fresh_client)))
