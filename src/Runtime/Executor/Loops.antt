-- ===== src/Runtime/Executor/Loops.antt =====
-- The loops of `Executor.execute` in runtime/executor/executor.py.
use acds.Prelude.{
  ℕ, Bool, true, false, not, ◌&&◌, ◌||◌, List, [], ◌∷◌, Result, ok, ◌>>=◌, if◌then◌else◌, str_eq,
  Text, any, keep,
}
use acds.Runtime.Faults.{Fault}
use acds.Runtime.Artifacts.{
  Step, Plan, Action, ActionStatus, completed, failed, skipped, skipped_step, TestResult,
  skipped_test, ExecutionStatus, run_completed, run_partial, run_failed,
}
use acds.Runtime.Clock.{Platform}
use acds.Runtime.Executor.Steps.{Host, World, action, execute_step, run_test}

-- What the first loop has collected, whether it has halted, and the world.
pub record Progress (h : Host) : Type 0 where
  pub actions : List Action
  pub artifacts : List Text
  pub halted : Bool
  pub world : World h

-- What `execute` returns.
pub record Execution : Type 0 where
  pub actions : List Action
  pub artifacts_generated : List Text
  pub acceptance_results : List TestResult
  pub execution_status : ExecutionStatus

abbrev pub is_failed : ActionStatus → Bool
is_failed failed = true
is_failed _ = false

abbrev pub is_completed : ActionStatus → Bool
is_completed completed = true
is_completed _ = false

abbrev pub makes_artifact : Action → Bool
makes_artifact a =
    is_completed a.status
    && (str_eq a.operation "create" || str_eq a.operation "modify" || str_eq a.operation "append")

abbrev pub modification_steps : List Step → List Step
modification_steps steps = keep (λ (s : Step). not (str_eq s.operation "run_test")) steps

abbrev pub test_steps : List Step → List Step
test_steps steps = keep (λ (s : Step). str_eq s.operation "run_test") steps

abbrev pub status_of : Bool → List Action → ExecutionStatus
status_of halted actions =
    if halted
    then (if any (λ (a : Action). is_completed a.status) actions then run_partial else run_failed)
    else run_completed

module _ (h : Host) (p : Platform) (times : ℕ → ℕ) where
  -- The loop over the modification steps, from its `halted` and the world.
  unfoldable pub run_modifications : World h → Bool → List Step → Result Fault (Progress h)
  run_modifications w halted [] =
      ok (record { actions = []; artifacts = []; halted = halted; world = w })
  run_modifications w true (step ∷ steps) = do
    rest ← run_modifications w true steps
    ok (record rest { actions = action step skipped skipped_step ∷ rest.actions })
  run_modifications w false (step ∷ steps) = do
    done ← execute_step h p times w step
    rest ← run_modifications done.1 (is_failed done.0.status) steps
    ok (record rest {
      actions = done.0 ∷ rest.actions;
      artifacts = if makes_artifact done.0 then done.0.path ∷ rest.artifacts else rest.artifacts;
    })

  -- The loop over the test steps.
  unfoldable pub run_tests :
      World h → Bool → List Step → Result Fault (List TestResult × Bool × World h)
  run_tests w halted [] = ok ([], halted, w)
  run_tests w true (step ∷ steps) = do
    rest ← run_tests w true steps
    ok (
      record { test_id = step.step_id; passed = false; output = skipped_test } ∷ rest.0,
      rest.1,
      rest.2,
    )
  run_tests w false (step ∷ steps) = do
    done ← run_test h p times w step
    rest ← run_tests done.1 (not done.0.passed) steps
    ok (done.0 ∷ rest.0, rest.1, rest.2)

  unfoldable pub execute : World h → Plan → Result Fault (Execution × World h)
  unfolding keep any
  execute w plan = do
    modified ← run_modifications w false (modification_steps plan.steps)
    tested ← run_tests modified.world modified.halted (test_steps plan.steps)
    ok (
      record {
        actions = modified.actions;
        artifacts_generated = modified.artifacts;
        acceptance_results = tested.0;
        execution_status = status_of tested.1 modified.actions;
      },
      tested.2,
    )
