-- ===== src/ArgusHold/Dispatch.antt =====
-- swarm/argus_hold/dispatcher.py, with normalizer.py, validator.py and execution_planner.py: a command
-- through its stages.
use acds.Prelude.{
  ◌+◌, String, Text, Option, none, some, List, [], ◌∷◌, ◌++◌, map, Result, ok, err, is_empty,
  lookup, if◌then◌else◌,
}
use acds.Prelude.States.{Exec}
use acds.ArgusHold.Models.{
  CommandEnvelope, CommandAction, CommandFault, schema_error, StageResult, passed, Spec, level_of,
  SideEffectLevel,
}
use acds.ArgusHold.Policy.{evaluate_level}
use acds.ArgusHold.Scope.{check_scope}
use acds.ArgusHold.Results.{not_registered, CommandResult, GatewayState, verdict_of, stage}
use acds.ArgusHold.Endings.{Gateway, build_denied, build_failure, finish, execute_adapter}

module _ {W : Type 0} (g : Gateway W) where
  open g use {
    config, lib, specs, schema_errors, adapter_of, is_adapter, perform, hash_content, hash_pair,
    fresh, now,
  }

  -- `Normalizer.normalize` of a registered command.
  unfoldable pub envelope_of :
      CommandAction → String → String → String → SideEffectLevel → CommandEnvelope
  envelope_of action run_id swarm_id id level = record {
    envelope_id = id;
    command_name = action.tool_name;
    parameters = action.parameters;
    side_effect_level = level;
    run_id = run_id;
    swarm_id = swarm_id;
    dry_run = action.dry_run;
  }

  -- `SchemaValidator.validate`
  unfoldable pub validate_parameters : CommandEnvelope → Spec → StageResult
  validate_parameters envelope spec =
      let errors =
        if spec.schema_present
        then map schema_error (schema_errors envelope.command_name envelope.parameters)
        else [] in
      stage "schema_validation" (verdict_of (is_empty errors)) errors

  -- Stages 5 and 6.
  unfoldable pub plan_and_execute :
      CommandEnvelope → Text → List StageResult → Exec (GatewayState W) CommandFault CommandResult
  unfolding execute_adapter finish
  plan_and_execute envelope workspace_root stages s =
      let planned = stages ++ stage "plan" passed [] ∷ [] in
      if envelope.dry_run
      then finish g envelope (planned ++ stage "execute" passed [] ∷ []) "dry_run" s
      else execute_adapter g envelope workspace_root planned s

  -- Stage 4.
  unfoldable pub guard_scope :
      CommandEnvelope → Text → List StageResult → Exec (GatewayState W) CommandFault CommandResult
  unfolding plan_and_execute build_denied
  guard_scope envelope workspace_root stages s =
      let scope = check_scope lib config envelope workspace_root in
      let checked = stages ++ stage "scope" (verdict_of scope.in_scope) scope.violations ∷ [] in
      if scope.in_scope
      then plan_and_execute envelope workspace_root checked s
      else build_denied g envelope checked "scope_violation" s

  -- Stage 3.
  unfoldable pub guard_policy :
      CommandEnvelope → Text → List StageResult → Exec (GatewayState W) CommandFault CommandResult
  unfolding guard_scope build_denied
  guard_policy envelope workspace_root stages s =
      let decision = evaluate_level config envelope.side_effect_level in
      let decided = stages ++ stage "policy" (verdict_of decision.allowed) [] ∷ [] in
      if decision.allowed
      then guard_scope envelope workspace_root decided s
      else build_denied g envelope decided "denied" s

  -- Stage 2.
  unfoldable pub guard_parameters :
      CommandEnvelope
      → Spec
      → Text
      → List StageResult
      → Exec (GatewayState W) CommandFault CommandResult
  unfolding guard_policy validate_parameters build_denied
  guard_parameters envelope spec workspace_root stages s =
      let validation = validate_parameters envelope spec in
      let validated = stages ++ validation ∷ [] in
      if is_empty validation.errors
      then guard_policy envelope workspace_root validated s
      else build_denied g envelope validated "validation_failed" s

  unfoldable pub execute_as :
      CommandAction
      → String
      → String
      → Text
      → Spec
      → Result CommandFault SideEffectLevel
      → Exec (GatewayState W) CommandFault CommandResult
  unfolding guard_parameters envelope_of
  execute_as action run_id swarm_id workspace_root spec (err fault) s = (err fault, s)
  execute_as action run_id swarm_id workspace_root spec (ok level) s =
      let envelope = envelope_of action run_id swarm_id (fresh s.issued) level in
      guard_parameters envelope spec workspace_root (stage "normalize" passed [] ∷ [])
        (record s { issued = s.issued + 1 })

  unfoldable pub execute_found :
      CommandAction
      → String
      → String
      → Text
      → Option Spec
      → Exec (GatewayState W) CommandFault CommandResult
  unfolding execute_as level_of build_failure
  execute_found action run_id swarm_id workspace_root none s = build_failure g [] not_registered s
  execute_found action run_id swarm_id workspace_root (some spec) s =
      execute_as action run_id swarm_id workspace_root spec (level_of spec.side_effect_level) s

  -- `ARGUSHoldDispatcher.execute`
  unfoldable pub execute_command :
      CommandAction → String → String → Text → Exec (GatewayState W) CommandFault CommandResult
  unfolding execute_found lookup
  execute_command action run_id swarm_id workspace_root s =
      execute_found action run_id swarm_id workspace_root (lookup action.tool_name specs) s
