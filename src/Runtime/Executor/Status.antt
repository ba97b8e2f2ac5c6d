-- ===== src/Runtime/Executor/Status.antt =====
-- What the status of an execution says about its actions and tests.
use acds.Prelude.{
  ◌≡◌, ◌↔◌, inl, inr, Bool, true, false, List, [], ◌∷◌, ok, arith, any, any_iff, Any, All,
  Bool-cases, ℕ,
}
use acds.Runtime.Artifacts.{
  Plan, Action, completed, TestResult, run_completed, run_partial, run_failed,
}
use acds.Runtime.Clock.{Platform}
use acds.Runtime.Executor.Steps.{Host, World}
use acds.Runtime.Executor.Loops.{Execution, is_completed, execute, status_of}
use acds.Runtime.Executor.Halting.{HaltsOnce, TestsHaltOnce, IsRun, execute-IsRun}

HaltsOnce-completed :
    (actions : List Action) (halted : Bool)
    → HaltsOnce actions halted
    → (halted ≡ false) ↔ All (λ (a : Action). a.status ≡ completed) actions
HaltsOnce-completed [] halted h = (λ e. tt, λ _. h)
HaltsOnce-completed (a ∷ actions) halted h = elim h [
  | inl (c, later) ↦
      let (f, g) = HaltsOnce-completed actions halted later in (λ e. (c, f e), λ x. g x.1)
  | inr (c, e, _) ↦ (λ n. absurd (cc), λ x. absurd (cc (x.0)))
]

TestsHaltOnce-passed :
    (results : List TestResult) (halted : Bool)
    → TestsHaltOnce results halted
    → (halted ≡ false) ↔ All (λ (t : TestResult). t.passed ≡ true) results
TestsHaltOnce-passed [] halted h = (λ e. tt, λ _. h)
TestsHaltOnce-passed (t ∷ results) halted h = elim h [
  | inl (c, later) ↦
      let (f, g) = TestsHaltOnce-passed results halted later in (λ e. (c, f e), λ x. g x.1)
  | inr (c, e, _) ↦ (λ n. absurd (cc), λ x. absurd (cc (x.0)))
]

any-completed :
    (actions : List Action)
    → (any (λ (a : Action). is_completed a.status) actions ≡ true)
      ↔ Any (λ (a : Action). a.status ≡ completed) actions
any-completed actions =
    any_iff (λ (a : Action). is_completed a.status) (λ a. a.status ≡ completed) (λ a. ground arith)
      actions

status_cases :
    (halted : Bool) (actions : List Action)
    → ((status_of halted actions ≡ run_completed) ↔ (halted ≡ false))
      × ((status_of halted actions ≡ run_partial)
          ↔ ((halted ≡ true) × Any (λ (a : Action). a.status ≡ completed) actions))
      × ((status_of halted actions ≡ run_failed)
          ↔ ((halted ≡ true) × (¬ Any (λ (a : Action). a.status ≡ completed) actions)))
status_cases false actions = ground arith
status_cases true actions =
    let (f, g) = any-completed actions in
    elim (Bool-cases (any (λ (a : Action). is_completed a.status) actions)) [
      | inl e ↦ rw e (ground (arith, f e))
      | inr n ↦ rw n (ground (arith, g))
    ]

module _ (h : Host) (p : Platform) (times : ℕ → ℕ) (w w' : World h) (plan : Plan) (e : Execution)
    (r : execute h p times w plan ≡ ok (e, w')) where
  abbrev AllDone : Type 0
  AllDone =
      All (λ (a : Action). a.status ≡ completed) e.actions
      × All (λ (t : TestResult). t.passed ≡ true) e.acceptance_results

  halted_iff : (s : IsRun h p times w w' plan e) → (s.tests_halted ≡ false) ↔ AllDone
  halted_iff s =
      let (f, g) = HaltsOnce-completed e.actions s.progress.halted s.once in
      elim s.tests [
        | inl (y, _, _, z) ↦ (λ n. absurd (cc), λ a. absurd (cc (g a.0)))
        | inr (n, t) ↦
            let (k, l) = TestsHaltOnce-passed e.acceptance_results s.tests_halted t in
            (λ d. (f n, k d), λ a. l a.1)
      ]

  not_done_iff : (s : IsRun h p times w w' plan e) → (s.tests_halted ≡ true) ↔ (¬ AllDone)
  not_done_iff s =
      let (f, g) = halted_iff s in
      (
        λ y d. cc (g d),
        λ n. elim (Bool-cases s.tests_halted) [ inl y ↦ y | inr k ↦ absurd (n (f k)) ],
      )

  -- A run that returns reports "completed" exactly when every action was completed and every test
  -- passed; otherwise it reports "partial" exactly when some action was completed, and "failed"
  -- exactly when none was.
  pub execute-status :
      ((e.execution_status ≡ run_completed) ↔ AllDone)
      × ((e.execution_status ≡ run_partial)
          ↔ ((¬ AllDone) × Any (λ (a : Action). a.status ≡ completed) e.actions))
      × ((e.execution_status ≡ run_failed)
          ↔ ((¬ AllDone) × (¬ Any (λ (a : Action). a.status ≡ completed) e.actions)))
  execute-status =
      let s = execute-IsRun h p times w w' plan e r in
      let (f, g) = halted_iff s in
      let (a, b, c) = status_cases s.tests_halted e.actions in
      let (undone, still) = not_done_iff s in
      rw s.status (
        (λ d. f (a.0 d), λ d. a.1 (g d)),
        (λ d. (undone (b.0 d).0, (b.0 d).1), λ d. b.1 (still d.0, d.1)),
        (λ d. (undone (c.0 d).0, (c.0 d).1), λ d. c.1 (still d.0, d.1)),
      )
