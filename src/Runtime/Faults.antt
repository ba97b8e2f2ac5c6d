-- ===== src/Runtime/Faults.antt =====
-- The exceptions that runtime code raises, a constructor for each message. Where a message quotes a
-- value, the constructor holds it.
use acds.Prelude.{String, Option, List, Text}

-- The window of a lease as `check_lease_validity` and `_check_time_bounds` report on it.
pub data Window : Type 0 where
  within_bounds not_yet_valid past_expiry : Window

pub data Fault : Type 0 where
  -- `datetime.fromisoformat` raised, or its result cannot be compared with `now`
  bad_timestamp : String → Fault
  -- a dictionary method was called on a value that is no dictionary
  not_a_dict : Fault
  -- a key file is missing or unreadable, or the cryptography library raised
  key_error : String → Fault
  -- `bind_lease`: "Cannot bind lease with status ..."
  lease_status : String → Fault
  -- `bind_lease`: "Cannot bind expired lease: ..."
  lease_window : Window → Fault
  -- `revoke_lease`: "Active lease not found: ..."
  lease_not_found : String → Fault
  -- `compile_plan`: "Cannot compile plan from failed validation: status=..."
  not_passed : Option String → Fault
  -- `compile_plan`: "Validation result proposal_id ... does not match proposal ..."
  proposal_mismatch : Option String → Option String → Fault
  -- `compile_plan`: "Validation result signature verification failed"
  bad_signature : Fault
  -- `validate_artifact_strict`: "Schema validation failed for ..."
  schema_invalid : List String → Fault
  -- a path that `Path.resolve` refuses: a NUL byte, or a loop of symbolic links
  path_error : Text → Fault
  -- a file that cannot be written: its name cannot be that of a file
  storage_error : String → Fault
  -- `run`: "Proposal validation failed: ..."
  proposal_rejected : Fault
  -- `_enforce_gate`: "Execution gate denied: ..."
  gate_refused : Fault
