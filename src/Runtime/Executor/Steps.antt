-- ===== src/Runtime/Executor/Steps.antt =====
-- The operating system under runtime/executor/executor.py (paths, files, the shell) as the parameter
-- `Host`, and the execution of one step under the tool gate.
use acds.Prelude.{
  ℕ, suc, String, Bool, true, false, not, List, [], ◌∷◌, Option, none, some, Result, ok, err, ◌>>=◌,
  if◌then◌else◌, str_eq, Text, codes, starts_with, has_part, is_empty, any,
}
use acds.Runtime.Faults.{Fault, path_error}
use acds.Runtime.Artifacts.{
  Step, Action, ActionStatus, completed, failed, Detail, fine, traversal_blocked, gate_denied,
  file_missing, unknown_operation, raised, TestResult, metacharacter, test_denied, exited,
  timed_out, test_raised,
}
use acds.Runtime.Clock.{Platform}
use acds.Runtime.ToolGate.{ToolGate, request_capability}

-- How `subprocess.run` ends: with a return code of 0 or another, by its time limit, or by raising.
pub data Outcome : Type 0 where
  returned_zero returned_other time_limit exception : Outcome

-- An operation on files says whether it returned (`true`) or raised, and leaves the files.
pub record Host : Type 1 where
  pub Files : Type 0
  -- `str(workspace_dir)` and `str(workspace_dir.resolve())`
  pub workspace : Text
  pub workspace_resolved : Text
  -- `str((workspace_dir / path).resolve())`, or `none` where `resolve` raises
  pub resolve : Text → Option Text
  pub exists : Files → Text → Bool
  -- `target.parent.mkdir(parents=True, exist_ok=True)`
  pub make_parents : Files → Text → Bool × Files
  pub write_text : Files → Text → Text → Bool × Files
  pub unlink : Files → Text → Bool × Files
  -- `open(target, "a")` and `write`
  pub append_text : Files → Text → Text → Bool × Files
  -- `subprocess.run(command, shell=True, ...)`
  pub run_command : Files → Text → Outcome × Files

-- What the run changes: the gate, the files, and how often the clock was read.
pub record World (h : Host) : Type 0 where
  pub gate : ToolGate
  pub files : h.Files
  pub reads : ℕ

unfoldable pub shell_injection_patterns : List Text
shell_injection_patterns =
    codes ";"
    ∷ codes "&&"
    ∷ codes "||"
    ∷ codes "|"
    ∷ codes "`"
    ∷ codes "$("
    ∷ codes "${"
    ∷ codes "\n"
    ∷ codes "\r"
    ∷ codes "<("
    ∷ codes ">("
    ∷ codes ">>"
    ∷ []

abbrev pub action : Step → ActionStatus → Detail → Action
action step status detail = record {
  step_id = step.step_id;
  operation = step.operation;
  path = step.path;
  status = status;
  detail = detail;
}

abbrev pub attempt : Bool → ActionStatus × Detail
attempt true = (completed, fine)
attempt false = (failed, raised)

module _ (h : Host) where
  -- `(workspace_dir / path).resolve() if path else workspace_dir`
  unfoldable pub target_of : Text → Option Text
  target_of path = if is_empty path then some h.workspace else h.resolve path

  abbrev pub after_parents : (h.Files → Bool × h.Files) → Bool × h.Files → Bool × h.Files
  after_parents write (true, files) = write files
  after_parents write (false, files) = (false, files)

  -- The `try` block: the status and detail of the action, and the files it leaves.
  unfoldable pub perform : h.Files → Step → Text → (ActionStatus × Detail) × h.Files
  perform files step target =
      let create =
        after_parents (λ fs. h.write_text fs target step.content) (h.make_parents files target) in
      let modify = h.write_text files target step.content in
      let delete = h.unlink files target in
      let append =
        after_parents (λ fs. h.append_text fs target step.content) (h.make_parents files target) in
      if str_eq step.operation "create"
      then (attempt create.0, create.1)
      else if str_eq step.operation "modify"
      then (if not (h.exists files target)
          then ((failed, file_missing), files)
          else (attempt modify.0, modify.1))
      else if str_eq step.operation "delete"
      then (if h.exists files target
          then (attempt delete.0, delete.1)
          else ((completed, fine), files))
      else if str_eq step.operation "append"
      then (attempt append.0, append.1)
      else ((failed, unknown_operation), files)

  module _ (p : Platform) (times : ℕ → ℕ) where
    -- A request to the tool gate at the next reading of the clock.
    unfoldable pub ask : World h → String → Text → Result Fault (Bool × World h)
    ask w capability path = do
      answer ← request_capability p (times w.reads) w.gate capability path
      ok (answer.0.allowed, record w { gate = answer.1; reads = suc w.reads })

    abbrev pub step_allowed : World h → Step → Text → Bool → Action × World h
    step_allowed w step target false = (action step failed gate_denied, w)
    step_allowed w step target true =
        let done = perform w.files step target in
        (action step done.0.0 done.0.1, record w { files = done.1 })

    -- The rest of `_execute_step`, from the resolved target; `resolve` stands before the `try`.
    unfoldable pub execute_at : World h → Step → Option Text → Result Fault (Action × World h)
    execute_at w step none = err (path_error step.path)
    execute_at w step (some target) =
        if not (starts_with target h.workspace_resolved)
        then ok (action step failed traversal_blocked, w)
        else do
          answer ← ask w step.required_capability step.path
          ok (step_allowed answer.1 step target answer.0)

    unfoldable pub execute_step : World h → Step → Result Fault (Action × World h)
    unfolding execute_at target_of
    execute_step w step = execute_at w step (target_of step.path)

    abbrev pub ended : Step → Outcome → TestResult
    ended step returned_zero = record { test_id = step.step_id; passed = true; output = exited }
    ended step returned_other = record { test_id = step.step_id; passed = false; output = exited }
    ended step time_limit = record { test_id = step.step_id; passed = false; output = timed_out }
    ended step exception = record { test_id = step.step_id; passed = false; output = test_raised }

    abbrev pub test_allowed : World h → Step → Bool → TestResult × World h
    test_allowed w step false =
        (record { test_id = step.step_id; passed = false; output = test_denied }, w)
    test_allowed w step true =
        let run = h.run_command w.files step.path in (ended step run.0, record w { files = run.1 })

    unfoldable pub run_test : World h → Step → Result Fault (TestResult × World h)
    run_test w step =
        if any (λ s. has_part s step.path) shell_injection_patterns
        then ok (record { test_id = step.step_id; passed = false; output = metacharacter }, w)
        else do answer ← ask w "TEST_EXECUTION" []; ok (test_allowed answer.1 step answer.0)
