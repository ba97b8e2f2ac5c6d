-- ===== src/Runtime/Executor/Total.antt =====
-- runtime/executor/executor.py: when it returns.
use acds.Prelude.{
  ℕ, String, ◌≡◌, subst, sym, inl, inr, Bool, true, false, not, some, List, All, [], ◌∷◌, ok,
  Returns, Returns-bind, Returns-value, Text, starts_with, has_part, any, Bool-cases,
}
use acds.Runtime.Artifacts.{Step, Plan}
use acds.Runtime.Clock.{Platform}
use acds.Runtime.ToolGate.{request_capability}
use acds.Runtime.ToolGate.Authority.{request_capability-gate}
use acds.Runtime.ToolGate.Total.{Answers, unbound-Answers}
use acds.Runtime.Executor.Steps.{
  Host, World, target_of, ask, execute_at, execute_step, run_test, shell_injection_patterns,
  step_allowed, test_allowed,
}
use acds.Runtime.Executor.Loops.{
  Progress, Execution, is_failed, run_modifications, run_tests, execute, modification_steps,
  test_steps,
}

module _ (h : Host) (p : Platform) (times : ℕ → ℕ) where
  abbrev Keeps : {A : Type 0} → A × World h → Type 0
  Keeps r = Answers p r.1.gate

  ask_total :
      (w : World h) (name : String) (path : Text)
      → Answers p w.gate
      → Returns Keeps (ask h p times w name path)
  unfolding ask
  ask_total w name path a =
      Returns-bind (λ _. Unit {0}) Keeps (request_capability p (times w.reads) w.gate name path) _
        (a (times w.reads) name path)
        λ r e _. elim (request_capability-gate p (times w.reads) w.gate r.1 name path r.0 e) [
          | inl same ↦ subst (Answers p) (sym same) a
          | inr gone ↦ subst (Answers p) (sym gone) (unbound-Answers p)
        ]

  allowed_gate :
      (w : World h) (step : Step) (target : Text) (b : Bool)
      → Answers p w.gate
      → Answers p (step_allowed h p times w step target b).1.gate
  allowed_gate w step target true a = a
  allowed_gate w step target false a = a

  -- `resolve` does not raise on the path of the step.
  abbrev pub Resolves : Step → Type 0
  Resolves step = (target : Text) × (target_of h step.path ≡ some target)

  execute_at_total :
      (w : World h) (step : Step) (target : Text)
      → Answers p w.gate
      → Returns Keeps (execute_at h p times w step (some target))
  unfolding execute_at
  execute_at_total w step target a = elim (Bool-cases (starts_with target h.workspace_resolved)) [
    | inr n ↦ rw n a
    | inl inside ↦ rw inside (
        Returns-bind Keeps Keeps (ask h p times w step.required_capability step.path) _
          (ask_total w step.required_capability step.path a)
          λ r _ k. allowed_gate r.1 step target r.0 k)
  ]

  execute_step_total :
      (w : World h) (step : Step)
      → Resolves step
      → Answers p w.gate
      → Returns Keeps (execute_step h p times w step)
  unfolding execute_step
  execute_step_total w step (target, e) a = rw e (execute_at_total w step target a)

  tested_gate :
      (w : World h) (step : Step) (b : Bool)
      → Answers p w.gate
      → Answers p (test_allowed h p times w step b).1.gate
  tested_gate w step true a = a
  tested_gate w step false a = a

  run_test_total :
      (w : World h) (step : Step) → Answers p w.gate → Returns Keeps (run_test h p times w step)
  unfolding run_test
  run_test_total w step a =
      elim (Bool-cases (any (λ s. has_part s step.path) shell_injection_patterns)) [
        | inl y ↦ rw y a
        | inr n ↦ rw n (
            Returns-bind Keeps Keeps (ask h p times w "TEST_EXECUTION" []) _
              (ask_total w "TEST_EXECUTION" [] a) λ r _ k. tested_gate r.1 step r.0 k)
      ]

  run_modifications_total :
      (w : World h) (halted : Bool) (steps : List Step)
      → All Resolves steps
      → Answers p w.gate
      → Returns
          (λ (r : Progress h). Answers p r.world.gate)
          (run_modifications h p times w halted steps)
  unfolding run_modifications
  run_modifications_total w true [] x a = a
  run_modifications_total w false [] x a = a
  run_modifications_total w true (step ∷ steps) x a =
      Returns-bind _ (λ (r : Progress h). Answers p r.world.gate)
        (run_modifications h p times w true steps) _ (run_modifications_total w true steps x.1 a)
        λ r _ k. k
  run_modifications_total w false (step ∷ steps) x a =
      Returns-bind Keeps (λ (r : Progress h). Answers p r.world.gate)
        (execute_step h p times w step) _ (execute_step_total w step x.0 a)
        λ done _ k.
          Returns-bind _ (λ (r : Progress h). Answers p r.world.gate)
            (run_modifications h p times done.1 (is_failed done.0.status) steps) _
            (run_modifications_total done.1 (is_failed done.0.status) steps x.1 k) λ r _ k'. k'

  run_tests_total :
      (w : World h) (halted : Bool) (steps : List Step)
      → Answers p w.gate
      → Returns (λ _. Unit {0}) (run_tests h p times w halted steps)
  unfolding run_tests
  run_tests_total w true [] a = tt
  run_tests_total w false [] a = tt
  run_tests_total w true (step ∷ steps) a =
      Returns-bind (λ _. Unit {0}) (λ _. Unit {0}) (run_tests h p times w true steps) _
        (run_tests_total w true steps a) λ r _ k. tt
  run_tests_total w false (step ∷ steps) a =
      Returns-bind Keeps (λ _. Unit {0}) (run_test h p times w step) _ (run_test_total w step a)
        λ done _ k.
          Returns-bind (λ _. Unit {0}) (λ _. Unit {0})
            (run_tests h p times done.1 (not done.0.passed) steps) _
            (run_tests_total done.1 (not done.0.passed) steps k) λ r _ _. tt

  -- Under a gate that answers every request, executing a plan returns, if `resolve` raises on the path
  -- of none of its modification steps.
  pub execute_total :
      (w : World h) (plan : Plan)
      → All Resolves (modification_steps plan.steps)
      → Answers p w.gate
      → (r : Execution × World h) × (execute h p times w plan ≡ ok r)
  unfolding execute
  execute_total w plan x a =
      let m = run_modifications h p times w false (modification_steps plan.steps) in
      let (r, e, _) =
        Returns-value (λ _. Unit {0}) (execute h p times w plan)
          (Returns-bind (λ (r : Progress h). Answers p r.world.gate) (λ _. Unit {0}) m _
            (run_modifications_total w false (modification_steps plan.steps) x a)
            λ r _ k.
              Returns-bind (λ _. Unit {0}) (λ _. Unit {0})
                (run_tests h p times r.world r.halted (test_steps plan.steps)) _
                (run_tests_total r.world r.halted (test_steps plan.steps) k) λ _ _ _. tt) in
      (r, e)
