-- ===== src/Runtime/Executor/Halting.antt =====
-- How a run of the executor halts, and the status that it reports.
use acds.Prelude.{
  Text, ℕ, ◌≡◌, ◌∙◌, ◌⊎◌, inl, inr, Bool, true, false, List, [], ◌∷◌, ok, arith, All, Bool-cases,
  Result-cases,
}
use acds.Runtime.Artifacts.{
  Step, Plan, Action, completed, failed, skipped, TestResult, skipped_test,
}
use acds.Runtime.Clock.{Platform}
use acds.Runtime.Executor.Steps.{Host, World, perform, execute_step, run_test}
use acds.Runtime.Executor.Containment.{execute_step-guarded}
use acds.Runtime.Executor.Loops.{
  Progress, Execution, run_modifications, run_tests, execute, modification_steps, test_steps,
  status_of,
}

-- Completed actions, and then, if the loop halted, one that failed and skipped ones.
abbrev pub HaltsOnce : List Action → Bool → Type 0
HaltsOnce [] halted = halted ≡ false
HaltsOnce (a ∷ actions) halted =
    ((a.status ≡ completed) × HaltsOnce actions halted)
    ⊎ ((a.status ≡ failed) × (halted ≡ true) × All (λ (b : Action). b.status ≡ skipped) actions)

-- Tests that passed, and then, if one did not, that one and skipped ones.
abbrev pub TestsHaltOnce : List TestResult → Bool → Type 0
TestsHaltOnce [] halted = halted ≡ false
TestsHaltOnce (t ∷ results) halted =
    ((t.passed ≡ true) × TestsHaltOnce results halted)
    ⊎ ((t.passed ≡ false)
        × (halted ≡ true)
        × All (λ (u : TestResult). (u.passed ≡ false) × (u.output ≡ skipped_test)) results)

module _ (h : Host) (p : Platform) (times : ℕ → ℕ) where
  perform_status :
      (files : h.Files) (step : Step) (s : Text)
      → ((perform h files step s).0.0 ≡ completed) ⊎ ((perform h files step s).0.0 ≡ failed)
  unfolding perform
  perform_status files step s = ground arith

  step_status :
      (w w' : World h) (step : Step) (a : Action)
      → execute_step h p times w step ≡ ok (a, w')
      → (a.status ≡ completed) ⊎ (a.status ≡ failed)
  step_status w w' step a e = elim ((execute_step-guarded h p times w w' step a e).3) [
    | inl (f, _) ↦ inr f
    | inr (target, _, _, s, _) ↦ elim (perform_status w.files step target) [
      | inl c ↦ inl (s ∙ c)
      | inr f ↦ inr (s ∙ f)
    ]
  ]

  -- Once halted, the loop skips every step, and changes nothing.
  run_modifications-halted :
      (w : World h) (steps : List Step) (r : Progress h)
      → run_modifications h p times w true steps ≡ ok r
      → All (λ (b : Action). b.status ≡ skipped) r.actions × (r.halted ≡ true) × (r.world ≡ w)
  unfolding run_modifications
  run_modifications-halted w [] r e = ground arith
  run_modifications-halted w (step ∷ steps) r e =
      elim (Result-cases (run_modifications h p times w true steps)) [
        | inr (x, f) ↦ absurd (ground arith)
        | inl (rest, f) ↦ let ih = run_modifications-halted w steps rest f in ground arith
      ]

  -- The modification steps are completed in order up to the first that fails, which halts the loop;
  -- every step after it is skipped.
  pub run_modifications-HaltsOnce :
      (w : World h) (steps : List Step) (r : Progress h)
      → run_modifications h p times w false steps ≡ ok r
      → HaltsOnce r.actions r.halted
  unfolding run_modifications
  run_modifications-HaltsOnce w [] r e = ground arith
  run_modifications-HaltsOnce w (step ∷ steps) r e =
      elim (Result-cases (execute_step h p times w step)) [
        | inr (x, f) ↦ absurd (ground arith)
        | inl ((a, w'), f) ↦ elim (step_status w w' step a f) [
          | inl c ↦ elim (Result-cases (run_modifications h p times w' false steps)) [
            | inr (x, k) ↦ absurd (ground arith)
            | inl (rest, k) ↦
                let ih = run_modifications-HaltsOnce w' steps rest k in
                let acts : r.actions ≡ a ∷ rest.actions = ground arith in
                let same : r.halted ≡ rest.halted = ground arith in rw (acts, same) (inl (c, ih))
          ]
          | inr c ↦ elim (Result-cases (run_modifications h p times w' true steps)) [
            | inr (x, k) ↦ absurd (ground arith)
            | inl (rest, k) ↦
                let ih = run_modifications-halted w' steps rest k in
                let acts : r.actions ≡ a ∷ rest.actions = ground arith in
                let same : r.halted ≡ rest.halted = ground arith in
                rw (acts, same) (inr (c, ih.1, ih.0))
          ]
        ]
      ]

  run_tests-halted :
      (w w' : World h) (steps : List Step) (rs : List TestResult) (b : Bool)
      → run_tests h p times w true steps ≡ ok (rs, b, w')
      → All (λ (u : TestResult). (u.passed ≡ false) × (u.output ≡ skipped_test)) rs
        × (b ≡ true)
        × (w' ≡ w)
  unfolding run_tests
  run_tests-halted w w' [] rs b e = ground arith
  run_tests-halted w w' (step ∷ steps) rs b e =
      elim (Result-cases (run_tests h p times w true steps)) [
        | inr (x, f) ↦ absurd (ground arith)
        | inl ((rest, b', w₁), f) ↦ let ih = run_tests-halted w w₁ steps rest b' f in ground arith
      ]

  run_tests-TestsHaltOnce :
      (w w' : World h) (steps : List Step) (rs : List TestResult) (b : Bool)
      → run_tests h p times w false steps ≡ ok (rs, b, w')
      → TestsHaltOnce rs b
  unfolding run_tests
  run_tests-TestsHaltOnce w w' [] rs b e = let f : rs ≡ [] = ground arith in rw f (ground arith)
  run_tests-TestsHaltOnce w w' (step ∷ steps) rs b e =
      elim (Result-cases (run_test h p times w step)) [
        | inr (x, f) ↦ absurd (ground arith)
        | inl ((t, w₁), f) ↦ elim (Bool-cases t.passed) [
          | inl c ↦ elim (Result-cases (run_tests h p times w₁ false steps)) [
            | inr (x, k) ↦ absurd (ground arith)
            | inl ((rest, b', w₂), k) ↦
                let ih = run_tests-TestsHaltOnce w₁ w₂ steps rest b' k in
                let split : rs ≡ t ∷ rest = ground arith in
                let same : b ≡ b' = ground arith in rw (split, same) (inl (c, ih))
          ]
          | inr c ↦ elim (Result-cases (run_tests h p times w₁ true steps)) [
            | inr (x, k) ↦ absurd (ground arith)
            | inl ((rest, b', w₂), k) ↦
                let ih = run_tests-halted w₁ w₂ steps rest b' k in
                let split : rs ≡ t ∷ rest = ground arith in
                let same : b ≡ b' = ground arith in rw (split, same) (inr (c, ih.1, ih.0))
          ]
        ]
      ]

  -- What a run that returns has done. The actions halt at most once; if they halt, no test is run
  -- and the tests change nothing; else the tests halt at most once. The status is "completed"
  -- exactly when nothing halted, and otherwise tells whether any action was completed.
  pub record IsRun (w w' : World h) (plan : Plan) (e : Execution) : Type 0 where
    pub progress : Progress h
    pub tests_halted : Bool
    pub modified : run_modifications h p times w false (modification_steps plan.steps) ≡ ok progress
    pub actions : e.actions ≡ progress.actions
    pub once : HaltsOnce e.actions progress.halted
    pub tests :
        ((progress.halted ≡ true)
          × All
              (λ (u : TestResult). (u.passed ≡ false) × (u.output ≡ skipped_test))
              e.acceptance_results
          × (w' ≡ progress.world)
          × (tests_halted ≡ true))
        ⊎ ((progress.halted ≡ false) × TestsHaltOnce e.acceptance_results tests_halted)
    pub status : e.execution_status ≡ status_of tests_halted e.actions

  pub execute-IsRun :
      (w w' : World h) (plan : Plan) (e : Execution)
      → execute h p times w plan ≡ ok (e, w')
      → IsRun w w' plan e
  unfolding execute
  execute-IsRun w w' plan e r =
      elim (Result-cases (run_modifications h p times w false (modification_steps plan.steps))) [
        | inr (x, f) ↦ absurd (ground arith)
        | inl (m, f) ↦
            elim (Result-cases (run_tests h p times m.world m.halted (test_steps plan.steps))) [
              | inr (x, k) ↦ absurd (ground arith)
              | inl ((rs, b, w₁), k) ↦
                  let acts : e.actions ≡ m.actions = ground arith in
                  let results : e.acceptance_results ≡ rs = ground arith in
                  let last : w' ≡ w₁ = ground arith in
                  record {
                    progress = m;
                    tests_halted = b;
                    modified = f;
                    actions = acts;
                    once =
                        rw acts (run_modifications-HaltsOnce w (modification_steps plan.steps) m f);
                    tests = rw results (elim (Bool-cases m.halted) [
                      | inl y ↦
                          let (skips, halts, same) =
                            run_tests-halted m.world w₁ _ rs b (rw y at k) in
                          inl (y, skips, last ∙ same, halts)
                      | inr n ↦ inr (n, run_tests-TestsHaltOnce m.world w₁ _ rs b (rw n at k))
                    ]);
                    status = ground arith;
                  }
            ]
      ]
