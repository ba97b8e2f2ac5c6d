-- ===== src/Runtime/Pipeline/Refusals.antt =====
-- What runtime/pipeline/runner.py never carries through.
use acds.Prelude.{
  String, ◌≡◌, refl, ap, inl, inr, true, Option, none, some, Result, ok, err, eq_iff, is_empty,
  opt_eq, Bool-cases, Result-cases,
}
use acds.Runtime.Faults.{Fault}
use acds.Runtime.Artifacts.{Proposal, ExecutionRecord}
use acds.Runtime.Validator.{validate_proposal, or_default}
use acds.Runtime.Validator.Admissible.{IsAdmissible, validate_proposal-status}
use acds.Runtime.Pipeline.Stages.{Setup, Root, load_stage, validate_stage, run}

module _ (s : Setup) where
  opt_eq→≡ : (a : Option String) (b : String) → opt_eq a (some b) ≡ true → a ≡ some b
  opt_eq→≡ none b h = cc
  opt_eq→≡ (some a) b h = ap some ((eq_iff a b).0 h)

  -- The run stops with a fault, and nothing past validation was touched.
  abbrev pub IsRefused : Root s → Result Fault ExecutionRecord × Root s → Type 0
  IsRefused r (ok entry, r') = ⊥
  IsRefused r (err fault, r') =
      (r'.plans ≡ r.plans)
      × (r'.leases ≡ r.leases)
      × (r'.executions ≡ r.executions)
      × (r'.log ≡ r.log)
      × (r'.files ≡ r.files)

  -- A run of a proposal that is not admissible ends with a fault, and changes no plan, no lease, no
  -- record, no line of the log and no file of the workspace; the proposal and the validation result may
  -- have been stored.
  pub run-IsRefused :
      (proposal : Proposal) (r : Root s)
      → ¬ IsAdmissible s.matcher proposal
      → IsRefused r (run s proposal r)
  unfolding run load_stage validate_stage
  run-IsRefused proposal r bad = elim (Bool-cases (is_empty (s.matcher.schema_errors proposal))) [
    | inr e ↦ rw e (refl, refl, refl, refl, refl)
    | inl e ↦ elim (Bool-cases (s.storable (or_default "unknown" proposal.proposal_id))) [
      | inr m ↦ rw (e, m) (refl, refl, refl, refl, refl)
      | inl m ↦
          rw (e, m)
            (elim (Result-cases (validate_proposal s.crypto s.matcher (s.uuid r.fresh) proposal)) [
              | inr (x, f) ↦ rw f (refl, refl, refl, refl, refl)
              | inl (v, f) ↦ rw f (elim (Bool-cases (opt_eq v.status (some "passed"))) [
                | inr n ↦ rw n (refl, refl, refl, refl, refl)
                | inl y ↦ absurd (
                    bad (
                      (validate_proposal-status s.crypto s.matcher (s.uuid r.fresh) proposal v
                          f).0.0
                        (opt_eq→≡ v.status "passed" y)))
              ])
            ])
    ]
  ]
