-- ===== src/Runtime/Ledger.antt =====
-- runtime/ledger/ledger_writer.py: the signed record of an execution, and its line in the log.
use acds.Prelude.{ℕ, String, Option, Result}
use acds.Runtime.Faults.{Fault}
use acds.Runtime.Artifacts.{absent, ExecutionStatus, ExecutionRecord}
use acds.Runtime.Signer.{Crypto, execution_signable, sign_and_attach}
use acds.Runtime.Clock.{Platform}
use acds.Runtime.Executor.Loops.{Execution}

-- The record before it is signed; `record_id` is the fresh uuid.
unfoldable pub unsigned_record :
    Platform → ℕ → String → Option String → String → Execution → String → ExecutionRecord
unsigned_record p now record_id plan_id lease_id e node_id = record {
  record_id = record_id;
  plan_id = plan_id;
  lease_id = lease_id;
  actions = e.actions;
  artifacts_generated = e.artifacts_generated;
  acceptance_results = e.acceptance_results;
  execution_status = e.execution_status;
  executor_node_id = node_id;
  executed_at = p.isoformat now;
  signature = absent;
}

unfoldable pub record_execution :
    Crypto
    → Platform
    → ℕ
    → String
    → Option String
    → String
    → Execution
    → String
    → Result Fault ExecutionRecord
record_execution c p now record_id plan_id lease_id e node_id =
    sign_and_attach c (unsigned_record p now record_id plan_id lease_id e node_id)
      "node_attestation_signer"

-- The values that a line of the log shows.
pub record LogLine : Type 0 where
  pub timestamp : String
  pub record_id : String
  pub plan_id : Option String
  pub status : ExecutionStatus

unfoldable pub log_line : ExecutionRecord → LogLine
log_line r = record {
  timestamp = r.executed_at;
  record_id = r.record_id;
  plan_id = r.plan_id;
  status = r.execution_status;
}
