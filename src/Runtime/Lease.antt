-- ===== src/Runtime/Lease.antt =====
-- runtime/lease/lease_manager.py: issuing, checking, storing and revoking capability leases.
pub mod Times
pub mod Storage
pub mod Grants
use acds.Prelude.{
  ℕ, ◌+◌, ◌*◌, String, ◌≡◌, Bool, true, false, Option, none, some, List, [], ◌∷◌, Result, ok, err,
  ◌>>=◌, if◌then◌else◌, str_eq, Text, length, contains, insert, lookup,
}
use acds.Runtime.Faults.{Fault, Window, within_bounds, not_yet_valid, past_expiry, lease_not_found}
use acds.Runtime.Artifacts.{absent, Plan, Config, Grant, null, plain, config, Lease, Revocation}
use acds.Runtime.Signer.{Crypto, lease_signable, revocation_signable, sign_and_attach}
use acds.Runtime.Clock.{Platform, time_window}

abbrev pub issuer : String
issuer = "lease_issuer_signer"

-- What `build_capabilities_from_plan` returns.
pub record Capabilities : Type 0 where
  pub granted : List (String × Grant)
  pub denied : List (String × Bool)
  pub max_files_modified : ℕ
  pub allowed_paths : List Text

abbrev second : ℕ
second = 1000000

-- `issue_lease` without a leases directory; `lease_id` is the fresh name that it makes.
unfoldable pub issue_lease :
    (c : Crypto) → Platform → ℕ → String → Plan → Capabilities → ℕ → String → Result Fault Lease
issue_lease c p now lease_id plan caps duration_seconds node_id =
    let expires = now + duration_seconds * second in
    sign_and_attach c
      (record {
        lease_id = lease_id;
        node_id = node_id;
        execution_plan_id = plan.plan_id;
        granted_capabilities = caps.granted;
        denied_capabilities = caps.denied;
        max_files_modified = caps.max_files_modified;
        allowed_paths = caps.allowed_paths;
        valid_from = some (p.isoformat now);
        expires_at = some (p.isoformat expires);
        revocation_status = "active";
        signature = absent;
      })
      issuer

-- The messages of `check_lease_validity`.
pub data Validity : Type 0 where
  valid : Validity
  revoked : Validity
  expired : Validity
  unexpected_status : String → Validity
  early : Validity

abbrev validity_of_window : Window → Validity
validity_of_window within_bounds = valid
validity_of_window not_yet_valid = early
validity_of_window past_expiry = expired

abbrev pub is_valid : Validity → Bool
is_valid valid = true
is_valid _ = false

unfoldable pub check_lease_validity : Platform → ℕ → Lease → Result Fault Validity
check_lease_validity p now lease =
    let status = lease.revocation_status in
    if str_eq status "revoked"
    then ok revoked
    else if str_eq status "expired"
    then ok expired
    else if str_eq status "active"
    then (do w ← time_window p now lease.valid_from lease.expires_at; ok (validity_of_window w))
    else ok (unexpected_status status)

abbrev pub no_config : Config
no_config = record { write = none; allowed = none; allowed_paths = [] }

abbrev pub entry_config : Option Grant → Config
entry_config none = no_config
entry_config (some null) = no_config
entry_config (some (plain b)) = no_config
entry_config (some (config c)) = c

-- The `filesystem` entry so far, `granted.get("filesystem", {})`.
unfoldable pub filesystem_config : List (String × Grant) → Config
filesystem_config granted = entry_config (lookup "filesystem" granted)

-- `granted` after each of the four tests of `build_capabilities_from_plan`.
unfoldable pub write_grants : Plan → List (String × Grant)
write_grants plan =
    if contains "FILESYSTEM_WRITE" plan.required_capabilities
    then insert "filesystem"
        (config (record { write = some true; allowed = none; allowed_paths = plan.allowed_paths }))
        []
    else []

unfoldable pub read_grants : Plan → List (String × Grant)
read_grants plan =
    if contains "FILESYSTEM_READ" plan.required_capabilities
    then insert "filesystem"
        (config
          (record (filesystem_config (write_grants plan)) { allowed_paths = plan.allowed_paths }))
        (write_grants plan)
    else write_grants plan

abbrev pub allowed_grant : Grant
allowed_grant = config (record { write = none; allowed = some true; allowed_paths = [] })

unfoldable pub test_grants : Plan → List (String × Grant)
test_grants plan =
    if contains "TEST_EXECUTION" plan.required_capabilities
    then insert "test_execution" allowed_grant (read_grants plan)
    else read_grants plan

unfoldable pub artifact_grants : Plan → List (String × Grant)
artifact_grants plan =
    if contains "ARTIFACT_GENERATION" plan.required_capabilities
    then insert "artifact_generation" allowed_grant (test_grants plan)
    else test_grants plan

unfoldable pub build_capabilities_from_plan : Plan → Capabilities
build_capabilities_from_plan plan = record {
  granted = artifact_grants plan;
  denied = ("network_access", true) ∷ ("dependency_installation", true) ∷ [];
  max_files_modified = length plan.steps;
  allowed_paths = plan.allowed_paths;
}

-- The directory of leases: the files of `active` and `revoked` by their names without `.json`, in
-- the order in which `glob` lists them, and the revocation events.
pub record Directory : Type 0 where
  pub active : List (String × Lease)
  pub revoked_leases : List (String × Lease)
  pub events : List (String × Revocation)

unfoldable pub save_lease : Lease → Directory → Directory
save_lease lease dir = record dir { active = insert lease.lease_id lease dir.active }

-- The first active file that holds the lease.
unfoldable pub find_lease : String → List (String × Lease) → Option (String × Lease)
find_lease lease_id [] = none
find_lease lease_id ((name, data_) ∷ files) =
    if str_eq data_.lease_id lease_id then some (name, data_) else find_lease lease_id files

-- `lease_path.unlink()`
unfoldable pub unlink : String → List (String × Lease) → List (String × Lease)
unlink name [] = []
unlink name ((n, l) ∷ files) = if str_eq n name then files else (n, l) ∷ unlink name files

abbrev revoke_found :
    (c : Crypto)
    → Platform
    → ℕ
    → String
    → String
    → Directory
    → Option (String × Lease)
    → Result Fault Revocation × Directory
revoke_found c p now lease_id reason dir none = (err (lease_not_found lease_id), dir)
revoke_found c p now lease_id reason dir (some (name, lease)) =
    let moved = record dir {
      revoked_leases =
          insert name (record lease { revocation_status = "revoked" }) dir.revoked_leases;
      active = unlink name dir.active;
    } in
    let event : Revocation = record {
      lease_id = lease_id;
      revoked_at = p.isoformat now;
      reason = reason;
      signature = absent;
    } in
    elim (sign_and_attach c event issuer) [
      | err e ↦ (err e, moved)
      | ok signed ↦ (ok signed, record moved { events = insert lease_id signed moved.events })
    ]

-- A failure to sign the event comes after the lease has been moved.
unfoldable pub revoke_lease :
    (c : Crypto) → Platform → ℕ → String → String → Directory → Result Fault Revocation × Directory
revoke_lease c p now lease_id reason dir =
    revoke_found c p now lease_id reason dir (find_lease lease_id dir.active)
