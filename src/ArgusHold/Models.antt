-- ===== src/ArgusHold/Models.antt =====
-- swarm/argus_hold/models.py, config.py and registry.py: the values of the pipeline. Times are left out.
use acds.Prelude.{
  ℕ, String, Text, Bool, Option, none, some, List, Result, ok, err, str_eq, if◌then◌else◌,
}

pub data SideEffectLevel : Type 0 where
  read_only controlled_generation local_mutation external_action privileged : SideEffectLevel

-- `skipped` is never given.
pub data StageVerdict : Type 0 where
  passed failed : StageVerdict

-- The fields that the stages read.
pub record Config : Type 0 where
  pub allowed_read_roots : List Text
  pub allowed_write_roots : List Text
  pub denied_fs_patterns : List Text
  pub allowed_hosts : List Text
  pub blocked_hosts : List Text
  pub max_privilege_level : ℕ
  pub emit_stage_artifacts : Bool

-- `parameters`: the two that the guard reads, and the rest.
pub record Parameters : Type 0 where
  pub path : Option Text
  pub url : Option Text
  pub others : List (String × String)

pub record CommandEnvelope : Type 0 where
  pub envelope_id : String
  pub command_name : String
  pub parameters : Parameters
  pub side_effect_level : SideEffectLevel
  pub run_id : String
  pub swarm_id : String
  pub dry_run : Bool

-- The objections of a stage, a constructor for each message.
pub data Objection : Type 0 where
  schema_error : String → Objection
  invalid_path : Text → Objection
  not_under_read_root not_under_write_root : Text → Objection
  no_write_roots : Objection
  denied_pattern : Text → Text → Objection
  not_https : Text → Objection
  blocked_host not_allowed_host : Text → Objection
  adapter_error unexpected_error : String → Objection

pub record StageResult : Type 0 where
  pub stage_name : String
  pub verdict : StageVerdict
  pub errors : List Objection

-- The rules of the policy engine.
pub data MatchedRule : Type 0 where
  privileged_deny privilege_ceiling external_no_hosts default_allow : MatchedRule

pub record PolicyDecision : Type 0 where
  pub allowed : Bool
  pub matched_rule : MatchedRule

pub record ScopeCheck : Type 0 where
  pub in_scope : Bool
  pub checked_paths : List Text
  pub checked_hosts : List Text
  pub violations : List Objection

-- The fields of a command's specification that are read.
pub record Spec : Type 0 where
  pub side_effect_level : Option String
  pub schema_present : Bool

-- The fields of an action dictionary that are read.
pub record CommandAction : Type 0 where
  pub tool_name : String
  pub parameters : Parameters
  pub dry_run : Bool

-- `spec["side_effect_level"]` raised a `KeyError`, or `SideEffectLevel(...)` a `ValueError`.
pub data CommandFault : Type 0 where
  no_level : CommandFault
  bad_level : String → CommandFault
  -- the artifacts of the envelope of this id, or their summary, cannot be written
  artifact_error : String → CommandFault

-- `SideEffectLevel(text)`
unfoldable pub level_named : String → Result CommandFault SideEffectLevel
level_named text =
    if str_eq text "read_only"
    then ok read_only
    else if str_eq text "controlled_generation"
    then ok controlled_generation
    else if str_eq text "local_mutation"
    then ok local_mutation
    else if str_eq text "external_action"
    then ok external_action
    else if str_eq text "privileged"
    then ok privileged
    else err (bad_level text)

unfoldable pub level_of : Option String → Result CommandFault SideEffectLevel
unfolding level_named
level_of none = err no_level
level_of (some text) = level_named text
