-- ===== src/Examples/Gates.antt =====
-- The gates, the signer, the compiler, the lease manager and the executor at concrete inputs.
use acds.Prelude.{
  Bool-cases, is_empty, inl, inr, ℕ, suc, String, ◌≡◌, refl, ◌↔◌, true, false, none, some, List, [],
  ◌∷◌, ◌++◌, length, ok, Text, codes, All, Any, str_eq, lookup, flag, any, text_eq, starts_with,
  strip_slash,
}
use acds.Runtime.Faults.{within_bounds, past_expiry}
use acds.Runtime.Paths.{covers, covers_stripped, covers→covers_stripped}
use acds.Runtime.Artifacts.{
  absent, Step, step_number, config, Lease, run_completed, run_partial, run_failed, Action,
  completed, TestResult,
}
use acds.Runtime.Signer.{validation_signable, plan_signable, lease_signable, revocation_signable}
use acds.Runtime.Clock.{time_window, read_time}
use acds.Runtime.Lease.{Directory, revoked, check_lease_validity, revoke_lease}
use acds.Runtime.Lease.Storage.{AreNamed, revoke_lease-moves}
use acds.Runtime.Lease.Grants.{one-AreConfigs}
use acds.Runtime.ToolGate.{
  ToolGate, CapabilityDecision, authorize, bind_lease, check_time_bounds, request_capability,
  is_capability_granted, path_in_scope, judge, denied_key, needs_path, filesystem_paths,
}
use acds.Runtime.ToolGate.Authority.{Below, IsAuthorized, authorize_iff}
use acds.Runtime.ToolGate.Sessions.{
  IsConsistent, bind, Reach, start, next, Reach-IsConsistent, authority_from_lease, session,
  session-past_expiry,
}
use acds.Runtime.ToolGate.Total.{bound-Answers}
use acds.Runtime.Executor.Steps.{World, execute_step, execute_at, ask, perform, target_of}
use acds.Runtime.Executor.Containment.{AreAuthorized, run_modifications-AreAuthorized}
use acds.Runtime.Executor.Loops.{
  modification_steps, Execution, Progress, run_modifications, execute,
}
use acds.Runtime.Executor.Status.{execute-status}
use acds.Runtime.Executor.Total.{Resolves, execute_total}
use acds.Examples.Toys.{platform, platform-IsPlatform, crypto, host}
use acds.Examples.Artifacts.{plan}

-- A lease for ten microseconds on "docs".
abbrev lease : Lease
lease = record {
  lease_id = "l2";
  node_id = "node";
  execution_plan_id = some "pl1";
  granted_capabilities =
      (
        "filesystem",
        config (record { write = some true; allowed = none; allowed_paths = codes "docs" ∷ [] }),
      )
      ∷ [];
  denied_capabilities = [];
  max_files_modified = 1;
  allowed_paths = codes "docs" ∷ [];
  valid_from = some "T";
  expires_at = some "xxxxxxxxxxT";
  revocation_status = "active";
  signature = absent;
}

abbrev gate : ToolGate
gate = record {
  lease = some lease;
  granted_capabilities = lease.granted_capabilities;
  allowed_paths = lease.allowed_paths;
  denied_capabilities = lease.denied_capabilities;
}

gate-Reach : Reach platform gate
unfolding bind_lease check_time_bounds time_window read_time
gate-Reach = next (start refl) (bind 3 lease refl)

authorized : authorize platform 3 gate "FILESYSTEM_WRITE" (codes "docs/a.md") ≡ ok (true, gate)
unfolding authorize request_capability check_time_bounds time_window read_time judge
    is_capability_granted path_in_scope lookup any covers_stripped text_eq starts_with strip_slash
authorized = refl

authorize_iff_example :
    (authorize platform 3 gate "FILESYSTEM_WRITE" (codes "docs/a.md") ≡ ok (true, gate))
    ↔ IsAuthorized platform 3 gate "FILESYSTEM_WRITE" (codes "docs/a.md")
authorize_iff_example = authorize_iff platform 3 gate "FILESYSTEM_WRITE" (codes "docs/a.md")

Reach-IsConsistent_example : IsConsistent gate
Reach-IsConsistent_example = Reach-IsConsistent platform gate gate-Reach

authority_from_lease_example :
    (l : Lease) × (gate.lease ≡ some l)
    × (l.revocation_status ≡ "active")
    × (time_window platform 3 l.valid_from l.expires_at ≡ ok within_bounds)
    × (flag (denied_key platform "FILESYSTEM_WRITE") l.denied_capabilities ≡ false)
    × (needs_path "FILESYSTEM_WRITE" ≡ true
        → (fs_paths : List Text) × (filesystem_paths (lookup "filesystem" l.granted_capabilities)
            ≡ ok fs_paths)
          × Any (Below (codes "docs/a.md")) (l.allowed_paths ++ fs_paths))
authority_from_lease_example =
    authority_from_lease platform 3 gate "FILESYSTEM_WRITE" (codes "docs/a.md") gate-Reach
      authorized

late : time_window platform 20 lease.valid_from lease.expires_at ≡ ok past_expiry
unfolding time_window read_time
late = refl

session-past_expiry_example :
    (ds : List CapabilityDecision) × (session platform gate
        ((20, "TEST_EXECUTION", []) ∷ (21, "FILESYSTEM_WRITE", codes "docs/a.md") ∷ [])
      ≡ ok ds)
    × (length ds ≡ suc 1)
    × All (λ d. d.allowed ≡ false) ds
session-past_expiry_example =
    session-past_expiry platform gate lease 20 "TEST_EXECUTION" []
      ((21, "FILESYSTEM_WRITE", codes "docs/a.md") ∷ []) refl late

inside : covers (codes "docs/a.md") (codes "docs/") ≡ true
unfolding covers text_eq starts_with strip_slash
inside = refl

covers→covers_stripped_example : covers_stripped (codes "docs/a.md") (codes "docs/") ≡ true
covers→covers_stripped_example = covers→covers_stripped (codes "docs/a.md") (codes "docs/") inside

abbrev world : World host
world = record { gate = gate; files = []; reads = 3 }

resolves : (steps : List Step) → All (Resolves host platform (λ n. n)) steps
unfolding target_of
resolves [] = tt
resolves (step ∷ steps) = (
  elim (Bool-cases (is_empty step.path)) [
    | inl y ↦ (host.workspace, rw y refl)
    | inr n ↦ (step.path, rw n refl)
  ],
  resolves steps,
)

resolved : All (Resolves host platform (λ n. n)) (modification_steps plan.steps)
resolved = resolves (modification_steps plan.steps)

executed : (r : Execution × World host) × (execute host platform (λ n. n) world plan ≡ ok r)
executed =
    execute_total host platform (λ n. n) world plan resolved
      (bound-Answers platform gate lease 0 10 platform-IsPlatform refl refl refl (
        one-AreConfigs "filesystem"
          (record { write = some true; allowed = none; allowed_paths = codes "docs" ∷ [] })))

execute_total_example :
    (r : Execution × World host) × (execute host platform (λ n. n) world plan ≡ ok r)
execute_total_example =
    execute_total host platform (λ n. n) world plan resolved
      (bound-Answers platform gate lease 0 10 platform-IsPlatform refl refl refl (
        one-AreConfigs "filesystem"
          (record { write = some true; allowed = none; allowed_paths = codes "docs" ∷ [] })))

execute-status_example :
    ((executed.0.0.execution_status ≡ run_completed) ↔ (
      All (λ (a : Action). a.status ≡ completed) executed.0.0.actions
      × All (λ (t : TestResult). t.passed ≡ true) executed.0.0.acceptance_results))
    × ((executed.0.0.execution_status ≡ run_partial) ↔ (
        (¬ (
          All (λ (a : Action). a.status ≡ completed) executed.0.0.actions
          × All (λ (t : TestResult). t.passed ≡ true) executed.0.0.acceptance_results))
        × Any (λ (a : Action). a.status ≡ completed) executed.0.0.actions))
    × ((executed.0.0.execution_status ≡ run_failed) ↔ (
        (¬ (
          All (λ (a : Action). a.status ≡ completed) executed.0.0.actions
          × All (λ (t : TestResult). t.passed ≡ true) executed.0.0.acceptance_results))
        × (¬ Any (λ (a : Action). a.status ≡ completed) executed.0.0.actions)))
execute-status_example =
    execute-status host platform (λ n. n) world executed.0.1 plan executed.0.0 executed.1

abbrev directory : Directory
directory = record { active = ("l2", lease) ∷ []; revoked_leases = []; events = [] }

directory-AreNamed : AreNamed directory.active
unfolding lookup
directory-AreNamed = (refl, refl, tt)

active_lookup : lookup "l2" directory.active ≡ some lease
unfolding lookup
active_lookup = refl

abbrev after : Directory
after = (revoke_lease crypto platform 5 "l2" "stolen" directory).1

revoke_lease-moves_example :
    (lookup "l2" after.active ≡ none)
    × (lookup "l2" after.revoked_leases ≡ some (record lease { revocation_status = "revoked" }))
    × ((later : ℕ)
        → check_lease_validity platform later (record lease { revocation_status = "revoked" })
          ≡ ok revoked)
    × ((j : String) → str_eq "l2" j ≡ false → lookup j after.active ≡ lookup j directory.active)
revoke_lease-moves_example =
    revoke_lease-moves crypto platform 5 "l2" "stolen" directory lease directory-AreNamed
      active_lookup

abbrev steps : List Step
steps =
    record {
      step_id = step_number 1;
      operation = "create";
      path = codes "docs/a.md";
      content = codes "hi";
      required_capability = "FILESYSTEM_WRITE";
    }
    ∷ []

modified : (r : Progress host) × (run_modifications host platform (λ n. n) world false steps ≡ ok r)
unfolding run_modifications execute_step execute_at ask perform target_of authorize
    request_capability check_time_bounds time_window read_time judge is_capability_granted
    path_in_scope lookup any covers_stripped text_eq starts_with strip_slash
modified = (_, refl)

run_modifications-AreAuthorized_example :
    AreAuthorized host platform (λ n. n) gate steps modified.0.actions
run_modifications-AreAuthorized_example =
    run_modifications-AreAuthorized host platform (λ n. n) world steps modified.0 modified.1
