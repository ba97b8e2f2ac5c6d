-- ===== src/Runtime/Pipeline/Runs.antt =====
-- When runtime/pipeline/runner.py runs a proposal to its end.
use acds.Prelude.{
  ℕ, suc, ◌+◌, ◌*◌, ◌≤◌, String, ◌≡◌, refl, ap, ◌∙◌, true, not, inl, inr, some, List, [], ◌∷◌, ◌++◌,
  map, Text, keep, str_eq, ok, arith, All, Bool-cases,
}
use acds.Prelude.States.{◌>>=◌, ◌>>◌, Succeeds, Succeeds-bind, Succeeds-value}
use acds.Runtime.Executor.Steps.{target_of}
use acds.Runtime.Executor.Loops.{modification_steps}
use acds.Runtime.Executor.Total.{Resolves}
use acds.Runtime.Compiler as C
use acds.Runtime.Compiler.{modification_step, test_step, plan_steps, compile_plan}
use acds.Runtime.Compiler.Steps.{compile_plan_sound}
use acds.Runtime.Artifacts.{
  Modification, AcceptanceTest, Proposal, ValidationResult, Plan, Lease, ExecutionRecord,
}
use acds.Runtime.Signer.{
  Crypto, IsKeyPair, verify_attached_signature, validation_signable, plan_signable, lease_signable,
  execution_signable,
}
use acds.Runtime.Clock.{IsPlatform}
use acds.Runtime.Lease.{valid, check_lease_validity, issuer}
use acds.Runtime.Lease.Grants.{artifact-AreConfigs}
use acds.Runtime.ToolGate.Total.{Answers, bound-Answers}
use acds.Runtime.Validator.{validate_proposal}
use acds.Runtime.Validator.Admissible.{IsAdmissible}
use acds.Runtime.Pipeline.Stages.{
  Setup, Root, load_stage, validate_stage, compile_stage, lease_stage, gate_stage, execute_stage,
  record_stage, run, from_compile,
}
use acds.Runtime.Pipeline.Trust.{
  validate_proposal-about, IsRunOf, lease-IsLeaseOf, lease-valid, run-IsTrusted,
}
use acds.Runtime.Pipeline.Outcomes.{
  IsRecorded, gate_of, load_stage-Succeeds, validate_stage-Succeeds, compile_stage-Succeeds,
  lease_stage-Succeeds, gate_stage-Succeeds, execute_stage-Succeeds, record_stage-Succeeds,
}

-- The key files of the four roles that sign in a run.
pub record AreKeyPairs (c : Crypto) : Type 0 where
  pub validator : IsKeyPair c "validator_signer"
  pub compiler : IsKeyPair c "compiler_signer"
  pub lease : IsKeyPair c issuer
  pub node : IsKeyPair c "node_attestation_signer"

module _ (s : Setup) where
  -- The lease is issued at the first reading, checked at the second and bound at the third; the clock
  -- does not go back, and the third is at most 300 seconds after the first.
  abbrev pub IsPrompt : ℕ → Type 0
  IsPrompt n =
      (s.times n ≤ s.times (suc n))
      × (s.times (suc n) ≤ s.times (suc (suc n)))
      × (s.times (suc (suc n)) ≤ s.times n + 300 * 1000000)

  -- `resolve` raises on the path of no modification.
  abbrev pub AreResolved : Proposal → Type 0
  AreResolved proposal =
      All (λ (x : Modification). (target : Text) × (target_of s.host x.path ≡ some target))
        proposal.modifications

  kept-resolve :
      (i : ℕ) (mods : List Modification) (tests : List AcceptanceTest)
      → All (λ (x : Modification). (target : Text) × (target_of s.host x.path ≡ some target)) mods
      → All
          (Resolves s.host s.platform s.times)
          (modification_steps (C.modification_steps i mods ++ map test_step tests))
  unfolding C.modification_steps keep
  kept-resolve i [] [] h = tt
  kept-resolve i [] (t ∷ tests) h = kept-resolve i [] tests h
  kept-resolve i (m ∷ mods) tests h =
      elim (Bool-cases (not (str_eq (modification_step i m).operation "run_test"))) [
        | inl y ↦ rw y (h.0, kept-resolve (suc i) mods tests h.1)
        | inr n ↦ rw n (kept-resolve (suc i) mods tests h.1)
      ]

  -- Then it raises on none of the steps that the executor carries out.
  steps-resolve :
      (proposal : Proposal) (result : ValidationResult) (plan : Plan) (plan_id : String)
      → AreResolved proposal
      → compile_plan s.crypto plan_id proposal result ≡ ok plan
      → All (Resolves s.host s.platform s.times) (modification_steps plan.steps)
  unfolding plan_steps
  steps-resolve proposal result plan plan_id found e =
      let (_, _, _, of) = compile_plan_sound s.crypto plan_id proposal result plan e in
      rw of.steps (kept-resolve 0 proposal.modifications proposal.acceptance_tests found)

  -- The gate bound to the lease of a run answers every request.
  gate-Answers :
      (proposal : Proposal) (result : ValidationResult) (plan : Plan) (lease : Lease) (t : ℕ)
      → IsPlatform s.platform
      → IsRunOf s.crypto s.platform s.matcher t proposal result plan lease
      → Answers s.platform (gate_of s lease)
  gate-Answers proposal result plan lease t ip x =
      let l = lease-IsLeaseOf s.crypto s.platform s.matcher t proposal result plan lease x in
      bound-Answers s.platform (gate_of s lease) lease t (t + 300 * 1000000) ip refl l.from l.until
        (rw l.granted (artifact-AreConfigs plan))

  -- The run from the execution gate on.
  leased-Succeeds :
      (proposal : Proposal) (result : ValidationResult) (plan : Plan) (lease : Lease) (n : ℕ)
      (r : Root s)
      → AreResolved proposal
      → AreKeyPairs s.crypto
      → IsPlatform s.platform
      → IsPrompt n
      → r.reads ≡ suc n
      → (x : IsRunOf s.crypto s.platform s.matcher (s.times n) proposal result plan lease)
      → verify_attached_signature s.crypto result ≡ ok true
      → verify_attached_signature s.crypto plan ≡ ok true
      → verify_attached_signature s.crypto lease ≡ ok true
      → Succeeds (IsRecorded s) (
          (gate_stage s plan result lease
              >> (execute_stage s plan lease >>= record_stage s plan lease))
            r)
  leased-Succeeds proposal result plan lease n r found keys ip (p₁, p₂, p₃) reads x vr vp vl =
      Succeeds-bind (λ _ r'. r'.reads ≡ suc r.reads) (IsRecorded s) (gate_stage s plan result lease)
        _ r
        (gate_stage-Succeeds s plan result lease r (
          run-IsTrusted s.crypto s.platform s.matcher (s.times n) proposal result plan lease x
            (s.times r.reads) (alive r (rw reads p₁) (rw reads (omega (arith, p₁, p₂, p₃)))) vr vp
            vl))
        λ _ r' reads'.
          Succeeds-bind (λ _ _. Unit {0}) (IsRecorded s) (execute_stage s plan lease) _ r'
            (execute_stage-Succeeds s plan lease r'
              (alive r' (rw (reads', reads) (omega (arith, p₁, p₂))) (rw (reads', reads) p₃))
              (steps-resolve proposal result plan x.plan_id found x.compiled)
              (gate-Answers proposal result plan lease (s.times n) ip x))
            λ e r'' _. record_stage-Succeeds s plan lease e r'' keys.node
    where
      alive :
          (q : Root s)
          → s.times n ≤ s.times q.reads
          → s.times q.reads ≤ s.times n + 300 * 1000000
          → check_lease_validity s.platform (s.times q.reads) lease ≡ ok valid
      alive q a b =
          lease-valid s.crypto s.platform s.matcher (s.times n) proposal result plan lease x ip
            (s.times q.reads) a b

  -- The run from the compiler on.
  validated-Succeeds :
      (proposal : Proposal) (result : ValidationResult) (r : Root s) (id validation_id : String)
      → AreResolved proposal
      → AreKeyPairs s.crypto
      → IsPlatform s.platform
      → IsPrompt r.reads
      → proposal.proposal_id ≡ some id
      → result.status ≡ some "passed"
      → verify_attached_signature s.crypto result ≡ ok true
      → validate_proposal s.crypto s.matcher validation_id proposal ≡ ok result
      → Succeeds (IsRecorded s) (from_compile s proposal result r)
  validated-Succeeds proposal result r id validation_id found keys ip prompt named passed vr
        validated =
      Succeeds-bind _ (IsRecorded s) (compile_stage s proposal result) _ r
        (compile_stage-Succeeds s proposal result r keys.compiler passed
          (validate_proposal-about s.crypto s.matcher validation_id proposal result id validated
            named)
          vr)
        λ plan r₁ (reads₁, vp, (plan_id, compiled)).
          Succeeds-bind _ (IsRecorded s) (lease_stage s plan) _ r₁
            (lease_stage-Succeeds s plan r₁ keys.lease)
            λ lease r₂ (reads₂, vl, (lease_id, leased)).
              leased-Succeeds proposal result plan lease r.reads r₂ found keys ip prompt
                (reads₂ ∙ ap suc reads₁)
                (record {
                  validation_id = validation_id;
                  plan_id = plan_id;
                  lease_id = lease_id;
                  node_id = s.node_id;
                  validated = validated;
                  compiled = compiled;
                  leased = rw (← reads₁) leased;
                })
                vr vp vl

  -- A run of an admissible proposal that has an id under which a file can be stored, and paths on
  -- none of which `resolve` raises, with the key pairs of the four roles in place, times that are read
  -- back as they were written, and a clock whose second and third readings do not go back and come
  -- within 300 seconds of the first, returns a record that verifies and is stored under its id.
  pub run_total :
      (proposal : Proposal) (r : Root s) (id : String)
      → AreResolved proposal
      → AreKeyPairs s.crypto
      → IsPlatform s.platform
      → IsPrompt r.reads
      → proposal.proposal_id ≡ some id
      → s.storable id ≡ true
      → IsAdmissible s.matcher proposal
      → (entry : ExecutionRecord) × (r' : Root s) × (run s proposal r ≡ (ok entry, r'))
        × (IsRecorded s) entry r'
  unfolding run
  run_total proposal r id found keys ip prompt named can adm =
      Succeeds-value (IsRecorded s) (run s proposal r) (
        Succeeds-bind _ (IsRecorded s) (load_stage s proposal) _ r
          (load_stage-Succeeds s proposal r adm.conforms (rw named can))
          λ _ r₁ reads₁.
            Succeeds-bind _ (IsRecorded s) (validate_stage s proposal) _ r₁
              (validate_stage-Succeeds s proposal r₁ keys.validator adm)
              λ result r₂ (reads₂, vr, passed, (vid, validated)).
                validated-Succeeds proposal result r₂ id vid found keys ip
                  (rw (reads₂ ∙ reads₁) prompt) named passed vr validated)
