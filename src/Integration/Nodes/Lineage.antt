-- ===== src/Integration/Nodes/Lineage.antt =====
-- swarm/integration/lineage.py, and `_record_lineage` of execution_pipeline.py.
use acds.Prelude.{
  ℕ, ◌+◌, String, Option, none, some, List, [], ◌∷◌, ◌++◌, str_eq, keep, insert, lookup,
}
use acds.Integration.Contracts.{Fields, ExecutionContext, Output, CapabilityResponse}
use acds.Integration.Client.Attempts.{ClientState}

-- What is hashed: `{}`, the input of a node, or its output.
pub data Document : Type 0 where
  no_output : Document
  fields : Fields → Document
  answer : Output → Document

-- `decision_trace`: the selected provider, the candidates and the fallback chain.
pub record TraceEntry : Type 0 where
  pub selected : String
  pub candidates : List String
  pub fallback_chain : List String

-- Without its timestamp and its duration.
pub record LineageEntry : Type 0 where
  pub entry_id : String
  pub process_id : String
  pub node_id : String
  pub node_type : String
  pub capability : String
  pub provider_id : Option String
  pub request_id : Option String
  pub input_hash : String
  pub output_hash : String
  pub decision_trace : Option TraceEntry
  pub artifacts : List String
  pub parent_entry_id : Option String

-- The client's state, `LineageTracker._entries`, `_last_entry_by_process`, the artifacts in the
-- workspace, and how many random ids were issued.
pub record PipelineState (W : Type 0) : Type 0 where
  pub client : ClientState W
  pub entries : List LineageEntry
  pub last_entry_by_process : List (String × String)
  pub files : List (String × Output)
  pub issued : ℕ

-- `get_chain`
unfoldable pub get_chain : String → List LineageEntry → List LineageEntry
unfolding keep
get_chain process_id entries = keep (λ (e : LineageEntry). str_eq e.process_id process_id) entries

abbrev provider_of : Option CapabilityResponse → Option String
provider_of none = none
provider_of (some response) = some response.provider_id

abbrev request_of : Option CapabilityResponse → Option String
request_of none = none
request_of (some response) = some response.request_id

abbrev trace_of : Option CapabilityResponse → Option TraceEntry
trace_of none = none
trace_of (some response) = some (record {
  selected = response.decision_trace.selected_provider;
  candidates = response.decision_trace.candidates_evaluated;
  fallback_chain = response.decision_trace.fallback_chain;
})

module _ {W : Type 0} (fresh : ℕ → String) (hash_data : Document → String) where
  -- `_record_lineage`
  unfoldable pub lineage_entry :
      ExecutionContext
      → String
      → String
      → Fields
      → Document
      → List String
      → Option CapabilityResponse
      → PipelineState W
      → LineageEntry
  unfolding lookup
  lineage_entry context node_type capability node_input output artifacts response s = record {
    entry_id = fresh s.issued;
    process_id = context.process_id;
    node_id = context.node_id;
    node_type = node_type;
    capability = capability;
    provider_id = provider_of response;
    request_id = request_of response;
    input_hash = hash_data (fields node_input);
    output_hash = hash_data output;
    decision_trace = trace_of response;
    artifacts = artifacts;
    parent_entry_id = lookup context.process_id s.last_entry_by_process;
  }

  unfoldable pub record_lineage :
      ExecutionContext
      → String
      → String
      → Fields
      → Document
      → List String
      → Option CapabilityResponse
      → PipelineState W
      → PipelineState W
  unfolding lineage_entry insert
  record_lineage context node_type capability node_input output artifacts response s =
      let entry =
        lineage_entry context node_type capability node_input output artifacts response s in
      record s {
        entries = s.entries ++ entry ∷ [];
        last_entry_by_process = insert context.process_id entry.entry_id s.last_entry_by_process;
        issued = s.issued + 1;
      }
