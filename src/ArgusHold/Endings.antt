-- ===== src/ArgusHold/Endings.antt =====
-- swarm/argus_hold/dispatcher.py: how a command ends, and the call of its adapter.
use acds.Prelude.{
  ℕ, ◌+◌, not, ◌||◌, is_empty, ok, err, String, Text, Bool, true, false, Option, none, some, List,
  [], ◌∷◌, ◌++◌, if◌then◌else◌,
}
use acds.Prelude.States.{Exec}
use acds.ArgusHold.Models.{
  CommandFault, artifact_error, Config, Parameters, CommandEnvelope, adapter_error,
  unexpected_error, StageResult, passed, failed, Spec,
}
use acds.ArgusHold.Scope.{Library}
use acds.ArgusHold.Ledger.{EntryData, append_entry}
use acds.ArgusHold.Results.{
  ArtifactFile, AdapterResult, execution_error, unexpected, produced, CommandError, no_adapter,
  CommandResult, GatewayState, stage, last_errors, error_text, emit,
}

-- What the dispatcher is made of: its configuration and registry, and the libraries that it calls.
pub record Gateway (W : Type 0) : Type 0 where
  pub config : Config
  pub lib : Library
  pub specs : List (String × Spec)
  -- the errors of the jsonschema library, by the command
  pub schema_errors : String → Parameters → List String
  -- the part of a command's name before its first dot
  pub adapter_of : String → Text
  -- the adapters, and `execute_command` of each
  pub is_adapter : Text → Bool
  pub perform : Text → CommandEnvelope → Text → W → AdapterResult × W
  -- SHA-256 of the canonical JSON of an entry, and of two texts together
  pub hash_content : EntryData → String
  pub hash_pair : String → String → String
  -- whether the files of the emitter for an envelope can be written, and its summary
  pub emits : String → List ArtifactFile → Bool
  pub summarizes : String → Bool
  -- the ids and the time
  pub fresh : ℕ → String
  pub now : String

module _ {W : Type 0} (g : Gateway W) where
  open g use {
    config, lib, specs, schema_errors, adapter_of, is_adapter, perform, hash_content, hash_pair,
    emits, summarizes, fresh, now,
  }

  abbrev append : CommandEnvelope → List StageResult → String → GatewayState W → GatewayState W
  append envelope stages outcome s = record s {
    ledger =
        append_entry hash_content hash_pair (fresh s.issued) now envelope stages outcome s.ledger;
    issued = s.issued + 1;
  }

  -- `emit`: `mkdir` and `write_text` of the files, or nothing at all if there are none.
  abbrev pub can_emit : CommandEnvelope → List ArtifactFile → Bool
  can_emit envelope files = is_empty files || emits envelope.envelope_id files

  -- `_build_denied`; an exception of the emitter leaves it before the ledger is written.
  unfoldable pub build_denied :
      CommandEnvelope → List StageResult → String → Exec (GatewayState W) CommandFault CommandResult
  unfolding last_errors emit
  build_denied envelope stages outcome s =
      if can_emit envelope (emit config stages false)
      then (
        ok (record {
          success = false;
          artifacts_produced = emit config stages false;
          error = some (error_text (last_errors stages) outcome);
          stage_results = stages;
        }),
        append envelope stages outcome s,
      )
      else (err (artifact_error envelope.envelope_id), s)

  -- `_build_failure`, which leaves nothing in the ledger.
  unfoldable pub build_failure :
      List StageResult → CommandError → Exec (GatewayState W) CommandFault CommandResult
  build_failure stages message s = (
    ok (record {
      success = false;
      artifacts_produced = [];
      error = some message;
      stage_results = stages;
    }),
    s,
  )

  -- Stages 7 and 8, and the summary, which is written after the ledger.
  unfoldable pub finish :
      CommandEnvelope → List StageResult → String → Exec (GatewayState W) CommandFault CommandResult
  unfolding emit
  finish envelope stages outcome s =
      let emitted = stages ++ stage "emit" passed [] ∷ [] in
      if not (can_emit envelope (emit config stages true))
      then (err (artifact_error envelope.envelope_id), s)
      else if not (summarizes envelope.envelope_id)
      then (err (artifact_error envelope.envelope_id), append envelope emitted outcome s)
      else (
        ok (record {
          success = true;
          artifacts_produced = emit config stages true;
          error = none;
          stage_results = emitted ++ stage "ledger" passed [] ∷ [];
        }),
        append envelope emitted outcome s,
      )

  -- `exec_output.get("implemented") is False`
  abbrev outcome_of : Option Bool → String
  outcome_of (some false) = "stub_not_implemented"
  outcome_of (some true) = "executed"
  outcome_of none = "executed"

  -- What follows the adapter's call.
  unfoldable pub after_adapter :
      CommandEnvelope
      → List StageResult
      → AdapterResult
      → Exec (GatewayState W) CommandFault CommandResult
  unfolding build_denied finish
  after_adapter envelope stages (execution_error message) s =
      build_denied envelope (stages ++ stage "execute" failed (adapter_error message ∷ []) ∷ [])
        "error" s
  after_adapter envelope stages (unexpected message) s =
      build_denied envelope (stages ++ stage "execute" failed (unexpected_error message ∷ []) ∷ [])
        "error" s
  after_adapter envelope stages (produced implemented) s =
      finish envelope (stages ++ stage "execute" passed [] ∷ []) (outcome_of implemented) s

  -- Stage 6: a command that is really executed.
  unfoldable pub execute_adapter :
      CommandEnvelope → Text → List StageResult → Exec (GatewayState W) CommandFault CommandResult
  unfolding after_adapter build_failure
  execute_adapter envelope workspace_root stages s =
      let name = adapter_of envelope.command_name in
      if is_adapter name
      then (let (result, world) = perform name envelope workspace_root s.world in
          after_adapter envelope stages result
            (record s { world = world; performed = envelope ∷ s.performed }))
      else build_failure stages (no_adapter name) s
