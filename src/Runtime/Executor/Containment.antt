-- ===== src/Runtime/Executor/Containment.antt =====
-- runtime/executor/executor.py: which steps are carried out, and where.
use acds.Prelude.{
  ℕ, String, ◌≡◌, refl, ◌∙◌, subst, ◌⊎◌, inl, inr, Bool, true, false, Option, none, some, List, [],
  ◌∷◌, ok, arith, Text, starts_with, Bool-cases, Result-cases,
}
use acds.Runtime.Artifacts.{
  Step, Action, ActionStatus, completed, failed, skipped, skipped_step, Detail,
}
use acds.Runtime.Clock.{Platform}
use acds.Runtime.ToolGate.{ToolGate, unbound, request_capability}
use acds.Runtime.ToolGate.Authority.{
  IsAuthorized, request_capability-gate, request_capability-allowed,
}
use acds.Runtime.Executor.Steps.{
  Host, World, action, target_of, perform, ask, step_allowed, execute_at, execute_step,
}
use acds.Runtime.Executor.Loops.{Progress, is_failed, run_modifications}

module _ (h : Host) (p : Platform) (times : ℕ → ℕ) where
  -- A request leaves the files alone, and the gate as it is or unbound; if it is granted, the gate
  -- authorized it at that reading of the clock.
  ask_lem :
      (w w' : World h) (name : String) (path : Text) (b : Bool)
      → ask h p times w name path ≡ ok (b, w')
      → (w'.files ≡ w.files)
        × ((w'.gate ≡ w.gate) ⊎ (w'.gate ≡ unbound))
        × (b ≡ true → IsAuthorized p (times w.reads) w.gate name path)
  unfolding ask
  ask_lem w w' name path b e =
      elim (Result-cases (request_capability p (times w.reads) w.gate name path)) [
        | inr (x, f) ↦ absurd (ground arith)
        | inl ((d, g), f) ↦ (
          ground arith,
          (let old = request_capability-gate p (times w.reads) w.gate g name path d f in
              ground arith),
          λ t.
              (request_capability-allowed p (times w.reads) w.gate g name path d f
                (ground arith)).1,
        )
      ]

  -- The resolved path of the step, as a text, begins with that of the workspace.
  abbrev pub IsContained : Step → Text → Type 0
  IsContained step target =
      (target_of h step.path ≡ some target) × (starts_with target h.workspace_resolved ≡ true)

  abbrev outcome : World h → Step → Text → (ActionStatus × Detail) × h.Files
  outcome w step target = perform h w.files step target

  guarded_files :
      (w w₁ : World h) (step : Step) (target : Text) (b : Bool)
      → w₁.files ≡ w.files
      → let (a, w') = step_allowed h p times w₁ step target b in
        (a.step_id ≡ step.step_id)
        × (a.path ≡ step.path)
        × (w'.gate ≡ w₁.gate)
        × (((a.status ≡ failed) × (w'.files ≡ w.files))
            ⊎ ((b ≡ true)
                × (a.status ≡ (outcome w step target).0.0)
                × (w'.files ≡ (outcome w step target).1)))
  guarded_files w w₁ step target false e = (refl, refl, refl, inl (refl, e))
  guarded_files w w₁ step target true e = (refl, refl, refl, inr (refl, rw e, rw e))

  abbrev IsStepResult : World h → Step → Action × World h → Type 0
  IsStepResult w step (a, w') =
      (a.step_id ≡ step.step_id)
      × (a.path ≡ step.path)
      × ((w'.gate ≡ w.gate) ⊎ (w'.gate ≡ unbound))
      × (((a.status ≡ failed) × (w'.files ≡ w.files))
          ⊎ ((target : Text) × IsContained step target
              × IsAuthorized p (times w.reads) w.gate step.required_capability step.path
              × (a.status ≡ (outcome w step target).0.0)
              × (w'.files ≡ (outcome w step target).1)))

  execute_at-guarded :
      (w w' : World h) (step : Step) (a : Action) (o : Option Text)
      → target_of h step.path ≡ o
      → execute_at h p times w step o ≡ ok (a, w')
      → IsStepResult w step (a, w')
  unfolding execute_at
  execute_at-guarded w w' step a none r e = absurd (cc)
  execute_at-guarded w w' step a (some target) r e =
      elim (Bool-cases (starts_with target h.workspace_resolved)) [
        | inr n ↦ ground arith
        | inl inside ↦ elim (Result-cases (ask h p times w step.required_capability step.path)) [
          | inr (x, f) ↦ absurd (ground arith)
          | inl ((b, w₁), f) ↦
              let (same, gate, auth) = ask_lem w w₁ step.required_capability step.path b f in
              let (id, path, kept, files) = guarded_files w w₁ step target b same in
              let done : step_allowed h p times w₁ step target b ≡ (a, w') = ground arith in
              subst (IsStepResult w step) done (
                id,
                path,
                elim gate [ inl g ↦ inl (kept ∙ g) | inr g ↦ inr (kept ∙ g) ],
                elim files [
                  | inl (f₁, f₂) ↦ inl (f₁, f₂)
                  | inr (y, f₁, f₂) ↦ inr (target, (r, inside), auth y, f₁, f₂)
                ],
              )
        ]
      ]

  -- A step reports its own id and path, and leaves the gate as it is or unbound. Either it fails and
  -- the files stay as they were, or its target begins with the workspace as a text, the gate
  -- authorized it, and the
  -- status and the files are those of performing the operation.
  pub execute_step-guarded :
      (w w' : World h) (step : Step) (a : Action)
      → execute_step h p times w step ≡ ok (a, w')
      → (a.step_id ≡ step.step_id)
        × (a.path ≡ step.path)
        × ((w'.gate ≡ w.gate) ⊎ (w'.gate ≡ unbound))
        × (((a.status ≡ failed) × (w'.files ≡ w.files))
            ⊎ ((target : Text) × IsContained step target
                × IsAuthorized p (times w.reads) w.gate step.required_capability step.path
                × (a.status ≡ (outcome w step target).0.0)
                × (w'.files ≡ (outcome w step target).1)))
  unfolding execute_step
  execute_step-guarded w w' step a e = execute_at-guarded w w' step a (target_of h step.path) refl e

  -- The actions of a loop, one for each step: it reports the id and the path of its step, and if it
  -- is completed, its target begins with the workspace as a text and the gate `g`
  -- authorized it at some reading of the clock.
  abbrev pub AreAuthorized : ToolGate → List Step → List Action → Type 0
  AreAuthorized g [] [] = Unit
  AreAuthorized g (step ∷ steps) (a ∷ actions) =
      (a.step_id ≡ step.step_id)
      × (a.path ≡ step.path)
      × (a.status ≡ completed
          → ((target : Text) × IsContained step target)
            × (n : ℕ) × IsAuthorized p (times n) g step.required_capability step.path)
      × AreAuthorized g steps actions
  AreAuthorized g _ _ = ⊥

  -- An unbound gate authorizes nothing.
  not_unbound :
      (n : ℕ) (g : ToolGate) (name : String) (path : Text)
      → g ≡ unbound
      → ¬ IsAuthorized p n g name path
  unfolding unbound
  not_unbound n g name path e a = let f = a.is_bound in ground arith

  completed-IsAuthorized :
      (g : ToolGate) (w w' : World h) (step : Step) (a : Action)
      → (w.gate ≡ g) ⊎ (w.gate ≡ unbound)
      → execute_step h p times w step ≡ ok (a, w')
      → a.status ≡ completed
      → ((target : Text) × IsContained step target)
        × (n : ℕ) × IsAuthorized p (times n) g step.required_capability step.path
  completed-IsAuthorized g w w' step a held e c = elim ((execute_step-guarded w w' step a e).3) [
    | inl (f, _) ↦ absurd (cc)
    | inr (target, inside, auth, _, _) ↦ elim held [
      | inl same ↦ (
        (target, inside),
        w.reads,
        subst (λ t. IsAuthorized p (times w.reads) t step.required_capability step.path) same auth,
      )
      | inr gone ↦ absurd (not_unbound _ _ _ _ gone auth)
    ]
  ]

  still_held :
      (g : ToolGate) (w w' : World h) (step : Step) (a : Action)
      → (w.gate ≡ g) ⊎ (w.gate ≡ unbound)
      → execute_step h p times w step ≡ ok (a, w')
      → (w'.gate ≡ g) ⊎ (w'.gate ≡ unbound)
  still_held g w w' step a held e = elim ((execute_step-guarded w w' step a e).2) [
    | inr gone ↦ inr gone
    | inl same ↦ elim held [ inl f ↦ inl (same ∙ f) | inr f ↦ inr (same ∙ f) ]
  ]

  authorized_from :
      (g : ToolGate) (w : World h) (halted : Bool) (steps : List Step) (r : Progress h)
      → (w.gate ≡ g) ⊎ (w.gate ≡ unbound)
      → run_modifications h p times w halted steps ≡ ok r
      → AreAuthorized g steps r.actions
  unfolding run_modifications
  authorized_from g w true [] r held e = let f : r.actions ≡ [] = ground arith in rw f tt
  authorized_from g w false [] r held e = let f : r.actions ≡ [] = ground arith in rw f tt
  authorized_from g w true (step ∷ steps) r held e =
      elim (Result-cases (run_modifications h p times w true steps)) [
        | inr (x, f) ↦ absurd (ground arith)
        | inl (rest, f) ↦
            let split : r.actions ≡ action step skipped skipped_step ∷ rest.actions =
              ground arith in
            rw split (refl, refl, λ c. cc, authorized_from g w true steps rest held f)
      ]
  authorized_from g w false (step ∷ steps) r held e =
      elim (Result-cases (execute_step h p times w step)) [
        | inr (x, f) ↦ absurd (ground arith)
        | inl ((a, w'), f) ↦
            elim (Result-cases (run_modifications h p times w' (is_failed a.status) steps)) [
              | inr (x, k) ↦ absurd (ground arith)
              | inl (rest, k) ↦
                  let split : r.actions ≡ a ∷ rest.actions = ground arith in
                  let (id, path, _, _) = execute_step-guarded w w' step a f in
                  rw split (
                    id,
                    path,
                    completed-IsAuthorized g w w' step a held f,
                    authorized_from g w' (is_failed a.status) steps rest
                        (still_held g w w' step a held f) k,
                  )
            ]
      ]

  -- In a run of modification steps from a gate, every completed action was authorized by that gate
  -- at some reading of the clock, and the resolved path of its step begins, as a text, with that of
  -- the workspace.
  pub run_modifications-AreAuthorized :
      (w : World h) (steps : List Step) (r : Progress h)
      → run_modifications h p times w false steps ≡ ok r
      → AreAuthorized w.gate steps r.actions
  run_modifications-AreAuthorized w steps r e = authorized_from w.gate w false steps r (inl refl) e
