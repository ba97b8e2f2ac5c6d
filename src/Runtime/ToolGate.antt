-- ===== src/Runtime/ToolGate.antt =====
-- runtime/gate/toolgate.py: the default-deny mediator of capabilities. A method returns the gate it
-- leaves; where it raises, the gate is as it was.
pub mod Authority
pub mod Sessions
pub mod Total
use acds.Prelude.{
  ℕ, String, Bool, true, false, not, ◌||◌, Option, none, some, List, [], ◌∷◌, ◌++◌, Result, ok, err,
  ◌>>=◌, if◌then◌else◌, str_eq, Text, is_empty, any, lookup, flag,
}
use acds.Runtime.Paths.{covers_stripped}
use acds.Runtime.Faults.{
  Fault, not_a_dict, lease_status, lease_window, Window, within_bounds, not_yet_valid, past_expiry,
}
use acds.Runtime.Artifacts.{Config, Grant, null, plain, config, Lease}
use acds.Runtime.Clock.{Platform, time_window}

pub data Reason : Type 0 where
  no_lease : Reason
  lease_expired : Window → Reason
  explicitly_denied : Reason
  not_granted : Reason
  path_required : Reason
  outside_scope : Reason
  authorized : Reason

pub record CapabilityDecision : Type 0 where
  pub allowed : Bool
  pub capability : String
  pub target_path : Text
  pub reason : Reason

pub record ToolGate : Type 0 where
  pub lease : Option Lease
  pub granted_capabilities : List (String × Grant)
  pub allowed_paths : List Text
  pub denied_capabilities : List (String × Bool)

abbrev pub cap_map : List (String × String)
cap_map =
    ("FILESYSTEM_READ", "filesystem")
    ∷ ("FILESYSTEM_WRITE", "filesystem")
    ∷ ("TEST_EXECUTION", "test_execution")
    ∷ ("ARTIFACT_GENERATION", "artifact_generation")
    ∷ ("REPOSITORY_MODIFICATION", "repository_modification")
    ∷ []

-- `__init__` and `unbind`
unfoldable pub unbound : ToolGate
unbound = record {
  lease = none;
  granted_capabilities = [];
  allowed_paths = [];
  denied_capabilities = [];
}

unfoldable pub check_time_bounds : Platform → ℕ → Lease → Result Fault Window
check_time_bounds p now lease = time_window p now lease.valid_from lease.expires_at

abbrev bind_in : Lease → Window → Result Fault ToolGate
bind_in lease within_bounds = ok (record {
  lease = some lease;
  granted_capabilities = lease.granted_capabilities;
  denied_capabilities = lease.denied_capabilities;
  allowed_paths = lease.allowed_paths;
})
bind_in lease w = err (lease_window w)

-- The gate before the call is overwritten, so it is no argument.
unfoldable pub bind_lease : Platform → ℕ → Lease → Result Fault ToolGate
unfolding check_time_bounds
bind_lease p now lease =
    let status = lease.revocation_status in
    if not (str_eq status "active")
    then err (lease_status status)
    else (do w ← check_time_bounds p now lease; bind_in lease w)

-- `cap_config.get("write", False)`
abbrev pub write_flag : Grant → Result Fault Bool
write_flag (config c) = ok (elim c.write [ none ↦ false | some b ↦ b ])
write_flag _ = err not_a_dict

abbrev pub config_flag : Grant → Bool
config_flag null = false
config_flag (plain b) = b
config_flag (config c) = elim c.allowed [ none ↦ true | some b ↦ b ]

abbrev pub grant_flag : String → Option Grant → Result Fault Bool
grant_flag capability none = ok false
grant_flag capability (some null) = ok false
grant_flag capability (some g) =
    if str_eq capability "FILESYSTEM_WRITE" then write_flag g else ok (config_flag g)

abbrev granted_by : String → List (String × Grant) → Option String → Result Fault Bool
granted_by capability grants none = ok false
granted_by capability grants (some lease_key) = grant_flag capability (lookup lease_key grants)

unfoldable pub is_capability_granted : ToolGate → String → Result Fault Bool
is_capability_granted g capability =
    granted_by capability g.granted_capabilities (lookup capability cap_map)

-- `self._granted_capabilities.get("filesystem", {}).get("allowed_paths", [])`
abbrev pub filesystem_paths : Option Grant → Result Fault (List Text)
filesystem_paths none = ok []
filesystem_paths (some (config c)) = ok c.allowed_paths
filesystem_paths (some _) = err not_a_dict

-- The order in which the source goes through the two sets of paths does not matter to `any`.
unfoldable pub path_in_scope : ToolGate → Text → Result Fault Bool
path_in_scope g target_path = if is_empty g.allowed_paths then ok false else do
  fs_paths ← filesystem_paths (lookup "filesystem" g.granted_capabilities)
  ok (any (covers_stripped target_path) (g.allowed_paths ++ fs_paths))

abbrev pub needs_path : String → Bool
needs_path capability =
    str_eq capability "FILESYSTEM_READ"
    || str_eq capability "FILESYSTEM_WRITE"
    || str_eq capability "REPOSITORY_MODIFICATION"

abbrev pub denied_key : Platform → String → String
denied_key p capability = elim (lookup capability cap_map) [
  | none ↦ p.lower capability
  | some key ↦ key
]

abbrev scope_reason : Bool → Reason
scope_reason true = authorized
scope_reason false = outside_scope

abbrev judge_granted : ToolGate → String → Text → Bool → Result Fault Reason
judge_granted g capability target_path false = ok not_granted
judge_granted g capability target_path true =
    if not (needs_path capability)
    then ok authorized
    else if is_empty target_path
    then ok path_required
    else (do inside ← path_in_scope g target_path; ok (scope_reason inside))

-- The tests from the denial list on, once the lease is known to be in its window.
unfoldable pub judge : Platform → ToolGate → String → Text → Result Fault Reason
unfolding is_capability_granted path_in_scope
judge p g capability target_path =
    if flag (denied_key p capability) g.denied_capabilities then ok explicitly_denied else do
      granted ← is_capability_granted g capability
      judge_granted g capability target_path granted

abbrev pub is_authorized : Reason → Bool
is_authorized authorized = true
is_authorized _ = false

abbrev decide : String → Text → Reason → CapabilityDecision
decide capability target_path reason = record {
  allowed = is_authorized reason;
  capability = capability;
  target_path = target_path;
  reason = reason;
}

abbrev request_in :
    Platform → ToolGate → String → Text → Window → Result Fault (CapabilityDecision × ToolGate)
request_in p g capability target_path within_bounds = do
  reason ← judge p g capability target_path
  ok (decide capability target_path reason, g)
request_in p g capability target_path w =
    ok (decide capability target_path (lease_expired w), unbound)

abbrev request_under :
    Platform
    → ℕ
    → ToolGate
    → String
    → Text
    → Option Lease
    → Result Fault (CapabilityDecision × ToolGate)
request_under p now g capability target_path none = ok (decide capability target_path no_lease, g)
request_under p now g capability target_path (some lease) = do
  w ← check_time_bounds p now lease
  request_in p g capability target_path w

unfoldable pub request_capability :
    Platform → ℕ → ToolGate → String → Text → Result Fault (CapabilityDecision × ToolGate)
unfolding check_time_bounds unbound
request_capability p now g capability target_path =
    request_under p now g capability target_path g.lease

unfoldable pub authorize : Platform → ℕ → ToolGate → String → Text → Result Fault (Bool × ToolGate)
unfolding request_capability
authorize p now g capability target_path = do
  answer ← request_capability p now g capability target_path
  ok (answer.0.allowed, answer.1)
