-- ===== src/Runtime/Pipeline/Stages.antt =====
-- runtime/pipeline/runner.py, `PipelineRunner.run`, over the directories below its root. A stage that
-- raises leaves what it and the stages before it have written. The clock and the source of uuids are
-- read through counters; readings whose value no code uses are left out. What a run of the executor
-- that ends by a fault of the gate did to the files is not followed.
use acds.Prelude.{
  ℕ, suc, String, Bool, true, false, not, some, List, [], ◌∷◌, ◌++◌, ok, err, if◌then◌else◌, opt_eq,
  is_empty, insert,
}
use acds.Prelude.States.{Exec, lift, gets, modify, ◌>>=◌, ◌>>◌}
use acds.Runtime.Faults.{Fault, storage_error, schema_invalid, proposal_rejected, gate_refused}
use acds.Runtime.Artifacts.{Proposal, ValidationResult, Plan, Lease, ExecutionRecord}
use acds.Runtime.Signer.{Crypto}
use acds.Runtime.Clock.{Platform}
use acds.Runtime.Lease.{Directory, build_capabilities_from_plan, issue_lease, save_lease}
use acds.Runtime.ToolGate.{bind_lease}
use acds.Runtime.ExecutionGate.{check}
use acds.Runtime.Validator.{Matcher, validate_proposal, or_default}
use acds.Runtime.Compiler.{compile_plan}
use acds.Runtime.Executor.Steps.{Host}
use acds.Runtime.Executor.Loops.{Execution, execute}
use acds.Runtime.Ledger.{record_execution, LogLine, log_line}

-- What the runner is given: the libraries, the clock, the source of uuids, and the node's name.
pub record Setup : Type 1 where
  pub crypto : Crypto
  pub platform : Platform
  pub matcher : Matcher
  pub host : Host
  -- the clock at its n-th reading, and the n-th uuid
  pub times : ℕ → ℕ
  pub uuid : ℕ → String
  pub node_id : String
  -- whether a file of this name, without `.json`, can be opened for writing; the uuids name files
  -- that can
  pub storable : String → Bool

-- The directories below the root, by the names of their files.
pub record Root (s : Setup) : Type 0 where
  pub proposals : List (String × Proposal)
  pub validation : List (String × ValidationResult)
  pub plans : List (String × Plan)
  pub leases : Directory
  pub executions : List (String × ExecutionRecord)
  pub log : List LogLine
  pub files : s.host.Files
  pub reads : ℕ
  pub fresh : ℕ

module _ (s : Setup) where
  abbrev pub Stage : Type 0 → Type 0
  Stage A = Exec (Root s) Fault A

  abbrev pub now : Stage ℕ
  now r = (ok (s.times r.reads), record r { reads = suc r.reads })

  abbrev pub fresh_id : Stage String
  fresh_id r = (ok (s.uuid r.fresh), record r { fresh = suc r.fresh })

  -- `load_proposal` of a file that could be read, and `store_proposal`
  unfoldable pub load_stage : Proposal → Stage (Unit {0})
  load_stage proposal =
      let errors = s.matcher.schema_errors proposal in
      if not (is_empty errors)
      then lift (err (schema_invalid errors))
      else if not (s.storable (or_default "unknown" proposal.proposal_id))
      then lift (err (storage_error (or_default "unknown" proposal.proposal_id)))
      else modify (λ r. record r {
        proposals = insert (or_default "unknown" proposal.proposal_id) proposal r.proposals;
      })

  abbrev pub reject_unless : Bool → Fault → Stage (Unit {0})
  reject_unless true f = lift (ok tt)
  reject_unless false f = lift (err f)

  unfoldable pub validate_stage : Proposal → Stage ValidationResult
  validate_stage proposal = do
    validation_id ← fresh_id
    result ← lift (validate_proposal s.crypto s.matcher validation_id proposal)
    modify (λ r. record r {
      validation = insert (or_default "" result.validation_id) result r.validation;
    })
    reject_unless (opt_eq result.status (some "passed")) proposal_rejected
    lift (ok result)

  unfoldable pub compile_stage : Proposal → ValidationResult → Stage Plan
  compile_stage proposal result = do
    plan_id ← fresh_id
    plan ← lift (compile_plan s.crypto plan_id proposal result)
    modify (λ r. record r { plans = insert (or_default "" plan.plan_id) plan r.plans })
    lift (ok plan)

  unfoldable pub lease_stage : Plan → Stage Lease
  lease_stage plan = do
    t ← now
    lease_id ← fresh_id
    lease ← lift (
        issue_lease s.crypto s.platform t lease_id plan (build_capabilities_from_plan plan) 300
          s.node_id)
    modify (λ r. record r { leases = save_lease lease r.leases })
    lift (ok lease)

  unfoldable pub gate_stage : Plan → ValidationResult → Lease → Stage (Unit {0})
  gate_stage plan result lease = do
    t ← now
    decision ← lift (check s.crypto s.platform t plan result lease)
    reject_unless decision.allowed gate_refused

  -- A new tool gate is bound to the lease, and the executor runs under it.
  unfoldable pub execute_stage : Plan → Lease → Stage Execution
  execute_stage plan lease = do
    t ← now
    gate ← lift (bind_lease s.platform t lease)
    start ← gets (λ r. record { gate = gate; files = r.files; reads = r.reads })
    done ← lift (execute s.host s.platform s.times start plan)
    modify (λ r. record r { files = done.1.files; reads = done.1.reads })
    lift (ok done.0)

  unfoldable pub record_stage : Plan → Lease → Execution → Stage ExecutionRecord
  record_stage plan lease e = do
    record_id ← fresh_id
    t ← now
    entry ←
        lift
          (record_execution s.crypto s.platform t record_id plan.plan_id lease.lease_id e s.node_id)
    modify (λ r. record r {
      executions = insert entry.record_id entry r.executions;
      log = r.log ++ log_line entry ∷ [];
    })
    lift (ok entry)

  -- The stages from the third on.
  abbrev pub from_compile : Proposal → ValidationResult → Stage ExecutionRecord
  from_compile proposal result = do
    plan ← compile_stage proposal result
    lease ← lease_stage plan
    gate_stage plan result lease
    e ← execute_stage plan lease
    record_stage plan lease e

  unfoldable pub run : Proposal → Stage ExecutionRecord
  run proposal = do
    load_stage proposal
    result ← validate_stage proposal
    from_compile proposal result
