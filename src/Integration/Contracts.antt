-- ===== src/Integration/Contracts.antt =====
-- swarm/integration/contracts.py: what a node asks of the client and what it gets.
use acds.Prelude.{ℕ, String, Bool, Option, List}

-- A dictionary of texts, for the inputs of a request and the metadata of an answer.
abbrev pub Fields : Type 0
Fields = List (String × String)

-- Without `max_cost`, which nothing reads.
pub record RequestConstraints : Type 0 where
  pub local_only : Bool
  pub max_latency_ms : Option ℕ
  pub sensitivity : String
  pub preferred_provider : Option String

pub record ExecutionContext : Type 0 where
  pub process_id : String
  pub node_id : String
  pub swarm_id : String
  pub correlation_id : String

pub record CapabilityRequest : Type 0 where
  pub capability : String
  pub input : Fields
  pub constraints : RequestConstraints
  pub context : ExecutionContext
  pub request_id : String

-- Without its timestamp.
pub record DecisionTrace : Type 0 where
  pub candidates_evaluated : List String
  pub selected_provider : String
  pub selection_reason : String
  pub policy_checks : List String
  pub fallback_chain : List String

-- The dictionary `{"text": ..., "metadata": ...}`.
pub record Output : Type 0 where
  pub text : String
  pub metadata : Fields

-- Without `cost_estimate`, which is always 0.
pub record CapabilityResponse : Type 0 where
  pub output : Output
  pub provider_id : String
  pub method_id : String
  pub latency_ms : ℕ
  pub decision_trace : DecisionTrace
  pub fallback_used : Bool
  pub request_id : String
