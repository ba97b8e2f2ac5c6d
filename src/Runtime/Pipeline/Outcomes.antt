-- ===== src/Runtime/Pipeline/Outcomes.antt =====
-- What each stage of runtime/pipeline/runner.py leaves behind when it succeeds.
use acds.Prelude.{ℕ, suc, String, ◌≡◌, refl, true, some, [], ok, lookup, lookup-insert, eq_iff, All}
use acds.Prelude.States.{Succeeds}
use acds.Runtime.Artifacts.{Proposal, ValidationResult, Plan, Lease, ExecutionRecord}
use acds.Runtime.Signer.{
  IsKeyPair, verify_attached_signature, validation_signable, plan_signable, lease_signable,
  execution_signable, verify-sign,
}
use acds.Runtime.Lease.{
  valid, check_lease_validity, issuer, build_capabilities_from_plan, issue_lease,
}
use acds.Runtime.ToolGate.{ToolGate}
use acds.Runtime.ToolGate.Total.{Answers}
use acds.Runtime.ExecutionGate.Chain.{IsTrusted, check-allowed_iff}
use acds.Runtime.Validator.{validate_proposal, or_default}
use acds.Runtime.Validator.Admissible.{IsAdmissible, validate_proposal-status}
use acds.Runtime.Compiler.{compile_plan}
use acds.Runtime.Executor.Steps.{World}
use acds.Runtime.Executor.Loops.{Execution, modification_steps}
use acds.Runtime.Executor.Total.{Resolves, execute_total}
use acds.Runtime.Ledger.{unsigned_record, record_execution}
use acds.Runtime.Pipeline.Stages.{
  Setup, Root, load_stage, validate_stage, compile_stage, lease_stage, gate_stage, execute_stage,
  record_stage,
}
use acds.Runtime.Pipeline.Trust.{
  validate_proposal-returns, compile_plan-returns, issue_lease-returns, bind_lease-valid,
}

module _ (s : Setup) where
  -- What a stage of the run leaves behind: the number of readings of the clock, and what else.
  abbrev Reads : ℕ → Root s → Type 0
  Reads n r = r.reads ≡ n

  pub load_stage-Succeeds :
      (proposal : Proposal) (r : Root s)
      → s.matcher.schema_errors proposal ≡ []
      → s.storable (or_default "unknown" proposal.proposal_id) ≡ true
      → Succeeds (λ _ r'. r'.reads ≡ r.reads) (load_stage s proposal r)
  unfolding load_stage
  load_stage-Succeeds proposal r e can = rw (e, can) refl

  pub validate_stage-Succeeds :
      (proposal : Proposal) (r : Root s)
      → IsKeyPair s.crypto "validator_signer"
      → IsAdmissible s.matcher proposal
      → Succeeds
          (λ result r'.
            (r'.reads ≡ r.reads)
            × (verify_attached_signature s.crypto result ≡ ok true)
            × (result.status ≡ some "passed")
            × ((validation_id : String) × (validate_proposal s.crypto s.matcher validation_id
                    proposal
                  ≡ ok result)))
          (validate_stage s proposal r)
  unfolding validate_stage
  validate_stage-Succeeds proposal r k adm =
      let (result, e, v) =
        validate_proposal-returns s.crypto s.matcher (s.uuid r.fresh) proposal k in
      let passed =
        (validate_proposal-status s.crypto s.matcher (s.uuid r.fresh) proposal result e).0.1 adm in
      rw e (rw passed (refl, v, passed, (s.uuid r.fresh, e)))

  pub compile_stage-Succeeds :
      (proposal : Proposal) (result : ValidationResult) (r : Root s)
      → IsKeyPair s.crypto "compiler_signer"
      → result.status ≡ some "passed"
      → result.proposal_id ≡ proposal.proposal_id
      → verify_attached_signature s.crypto result ≡ ok true
      → Succeeds
          (λ plan r'.
            (r'.reads ≡ r.reads)
            × (verify_attached_signature s.crypto plan ≡ ok true)
            × ((plan_id : String) × (compile_plan s.crypto plan_id proposal result ≡ ok plan)))
          (compile_stage s proposal result r)
  unfolding compile_stage
  compile_stage-Succeeds proposal result r k passed same verified =
      let (plan, e, v) =
        compile_plan-returns s.crypto (s.uuid r.fresh) proposal result k passed same verified in
      rw e (refl, v, (s.uuid r.fresh, e))

  pub lease_stage-Succeeds :
      (plan : Plan) (r : Root s)
      → IsKeyPair s.crypto issuer
      → Succeeds
          (λ lease r'.
            (r'.reads ≡ suc r.reads)
            × (verify_attached_signature s.crypto lease ≡ ok true)
            × ((lease_id : String) × (issue_lease s.crypto s.platform
                    (s.times r.reads)
                    lease_id
                    plan
                    (build_capabilities_from_plan plan)
                    300
                    s.node_id
                  ≡ ok lease)))
          (lease_stage s plan r)
  unfolding lease_stage
  lease_stage-Succeeds plan r k =
      let (lease, e, v) =
        issue_lease-returns s.crypto s.platform (s.times r.reads) (s.uuid r.fresh) plan
          (build_capabilities_from_plan plan) 300 s.node_id k in
      rw e (refl, v, (s.uuid r.fresh, e))

  pub gate_stage-Succeeds :
      (plan : Plan) (result : ValidationResult) (lease : Lease) (r : Root s)
      → IsTrusted s.crypto s.platform (s.times r.reads) plan result lease
      → Succeeds (λ _ r'. r'.reads ≡ suc r.reads) (gate_stage s plan result lease r)
  unfolding gate_stage
  gate_stage-Succeeds plan result lease r t =
      rw ((check-allowed_iff s.crypto s.platform (s.times r.reads) plan result lease).1 t) refl

  abbrev pub gate_of : Lease → ToolGate
  gate_of lease = record {
    lease = some lease;
    granted_capabilities = lease.granted_capabilities;
    allowed_paths = lease.allowed_paths;
    denied_capabilities = lease.denied_capabilities;
  }

  pub execute_stage-Succeeds :
      (plan : Plan) (lease : Lease) (r : Root s)
      → check_lease_validity s.platform (s.times r.reads) lease ≡ ok valid
      → All (Resolves s.host s.platform s.times) (modification_steps plan.steps)
      → Answers s.platform (gate_of lease)
      → Succeeds (λ _ _. Unit {0}) (execute_stage s plan lease r)
  unfolding execute_stage
  execute_stage-Succeeds plan lease r v x a =
      let e = bind_lease-valid s.platform (s.times r.reads) lease v in
      let start : World s.host = record {
        gate = gate_of lease;
        files = r.files;
        reads = suc r.reads;
      } in
      let (done, y) = execute_total s.host s.platform s.times start plan x a in rw (e, y) tt

  -- What the last stage leaves: the record verifies, and it is found under its id.
  abbrev pub IsRecorded : ExecutionRecord → Root s → Type 0
  IsRecorded entry r =
      (verify_attached_signature s.crypto entry ≡ ok true)
      × (lookup entry.record_id r.executions ≡ some entry)

  pub record_stage-Succeeds :
      (plan : Plan) (lease : Lease) (e : Execution) (r : Root s)
      → IsKeyPair s.crypto "node_attestation_signer"
      → Succeeds IsRecorded (record_stage s plan lease e r)
  unfolding record_stage record_execution
  record_stage-Succeeds plan lease e r k =
      let (entry, x, v) =
        verify-sign s.crypto "node_attestation_signer"
          (unsigned_record s.platform (s.times r.reads) (s.uuid r.fresh) plan.plan_id lease.lease_id
            e s.node_id)
          k refl in
      rw x (v, rw lookup-insert (rw ((eq_iff entry.record_id entry.record_id).1 refl)))
