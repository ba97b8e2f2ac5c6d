-- ===== src/ArgusHold/Results.antt =====
-- swarm/argus_hold/models.py and artifact_emitter.py: what a command leaves.
use acds.Prelude.{
  ℕ, ◌+◌, String, Text, Bool, true, false, Option, List, [], ◌∷◌, ◌++◌, is_empty, if◌then◌else◌,
}
use acds.ArgusHold.Models.{
  Config, CommandEnvelope, Objection, StageResult, StageVerdict, passed, failed,
}
use acds.ArgusHold.Ledger.{LedgerState}

-- How an adapter's `execute_command` ends: an `ExecutionError`, another exception, or its output, with
-- the value of `implemented` if that is a Boolean.
pub data AdapterResult : Type 0 where
  execution_error unexpected : String → AdapterResult
  produced : Option Bool → AdapterResult

-- A file in the artifact directory of an envelope, but for the summary that is written last.
pub data ArtifactFile : Type 0 where
  stage_file : ℕ → String → ArtifactFile
  execution_output : ArtifactFile

-- `error` of a result: those of the last stage with any, or a message that names the outcome.
pub data CommandError : Type 0 where
  stage_errors : List Objection → CommandError
  command_outcome : String → CommandError
  not_registered : CommandError
  no_adapter : Text → CommandError

-- Without its ids and times.
pub record CommandResult : Type 0 where
  pub success : Bool
  pub artifacts_produced : List ArtifactFile
  pub error : Option CommandError
  pub stage_results : List StageResult

-- The world of the adapters, the commands they executed, latest first, the ledger, and how many ids
-- were issued.
pub record GatewayState (W : Type 0) : Type 0 where
  pub world : W
  pub performed : List CommandEnvelope
  pub ledger : LedgerState
  pub issued : ℕ

abbrev pub verdict_of : Bool → StageVerdict
verdict_of true = passed
verdict_of false = failed

abbrev pub stage : String → StageVerdict → List Objection → StageResult
stage name verdict errors = record { stage_name = name; verdict = verdict; errors = errors }

-- `for s in reversed(stages): if s.errors: ...`: the errors of the last stage that has any.
unfoldable pub last_errors : List StageResult → List Objection
last_errors [] = []
last_errors (result ∷ results) =
    let later = last_errors results in if is_empty later then result.errors else later

abbrev pub error_text : List Objection → String → CommandError
error_text [] outcome = command_outcome outcome
error_text (e ∷ errors) outcome = stage_errors (e ∷ errors)

-- The loop of `emit` over the stages.
unfoldable pub stage_files : ℕ → List StageResult → List ArtifactFile
stage_files n [] = []
stage_files n (result ∷ results) = stage_file n result.stage_name ∷ stage_files (n + 1) results

-- `ArtifactEmitter.emit`, with an output or without.
unfoldable pub emit : Config → List StageResult → Bool → List ArtifactFile
unfolding stage_files
emit config results has_output =
    if config.emit_stage_artifacts
    then stage_files 1 results ++ (if has_output then execution_output ∷ [] else [])
    else []
