-- ===== src/Runtime/Lease/Grants.antt =====
-- What `build_capabilities_from_plan` grants and denies, and the lease that `issue_lease` makes of it.
use acds.Prelude.{
  ℕ, ◌+◌, ◌*◌, String, ◌≡◌, refl, ap, ◌∙◌, inl, inr, Bool, true, false, none, some, List, [], ◌∷◌,
  ok, arith, if◌then◌else◌, str_eq, contains, lookup, insert, lookup-insert, Bool-cases,
}
use acds.Runtime.Artifacts.{Plan, Config, Grant, config, Lease}
use acds.Runtime.Signer.{Crypto, lease_signable, sign_and_attach-form}
use acds.Runtime.Clock.{Platform}
use acds.Runtime.Lease.{
  build_capabilities_from_plan, entry_config, filesystem_config, write_grants, read_grants,
  test_grants, artifact_grants, allowed_grant, issue_lease, issuer,
}

-- Every grant is a dictionary.
abbrev pub AreConfigs : List (String × Grant) → Type 0
AreConfigs grants =
    (key : String) (grant : Grant)
    → lookup key grants ≡ some grant
    → (c : Config) × (grant ≡ config c)

insert-AreConfigs :
    (k : String) (c : Config) (grants : List (String × Grant))
    → AreConfigs grants
    → AreConfigs (insert k (config c) grants)
insert-AreConfigs k c grants h key grant e = elim (Bool-cases (str_eq key k)) [
  | inl y ↦ let f = lookup-insert k key (config c) grants in (c, ground (arith, f))
  | inr n ↦ let f = lookup-insert k key (config c) grants in h key grant (ground (arith, f))
]

if-AreConfigs :
    (b : Bool) (xs ys : List (String × Grant))
    → AreConfigs xs
    → AreConfigs ys
    → AreConfigs (if b then xs else ys)
if-AreConfigs true xs ys h k = h
if-AreConfigs false xs ys h k = k

nil-AreConfigs : AreConfigs []
unfolding lookup
nil-AreConfigs key grant e = cc

pub one-AreConfigs : (k : String) (c : Config) → AreConfigs ((k, config c) ∷ [])
unfolding insert
one-AreConfigs k c = insert-AreConfigs k c [] nil-AreConfigs

filesystem_config-eq :
    (granted : List (String × Grant)) (c : Config)
    → lookup "filesystem" granted ≡ some (config c)
    → filesystem_config granted ≡ c
unfolding filesystem_config
filesystem_config-eq granted c e = ap entry_config e

module _ (plan : Plan) where
  write-AreConfigs : AreConfigs (write_grants plan)
  unfolding write_grants
  write-AreConfigs =
      if-AreConfigs (contains "FILESYSTEM_WRITE" plan.required_capabilities) _ []
        (insert-AreConfigs "filesystem" _ [] nil-AreConfigs) nil-AreConfigs

  read-AreConfigs : AreConfigs (read_grants plan)
  unfolding read_grants
  read-AreConfigs =
      if-AreConfigs (contains "FILESYSTEM_READ" plan.required_capabilities) _ (write_grants plan)
        (insert-AreConfigs "filesystem" _ (write_grants plan) write-AreConfigs) write-AreConfigs

  test-AreConfigs : AreConfigs (test_grants plan)
  unfolding test_grants
  test-AreConfigs =
      if-AreConfigs (contains "TEST_EXECUTION" plan.required_capabilities) _ (read_grants plan)
        (insert-AreConfigs "test_execution" _ (read_grants plan) read-AreConfigs) read-AreConfigs

  pub artifact-AreConfigs : AreConfigs (artifact_grants plan)
  unfolding artifact_grants
  artifact-AreConfigs =
      if-AreConfigs (contains "ARTIFACT_GENERATION" plan.required_capabilities) _ (test_grants plan)
        (insert-AreConfigs "artifact_generation" _ (test_grants plan) test-AreConfigs)
        test-AreConfigs

  write_lem :
      contains "FILESYSTEM_WRITE" plan.required_capabilities ≡ true
      → lookup "filesystem" (write_grants plan)
        ≡ some (
            config
              (record { write = some true; allowed = none; allowed_paths = plan.allowed_paths }))
  unfolding write_grants insert lookup
  write_lem e = rw e

  read_lem :
      contains "FILESYSTEM_WRITE" plan.required_capabilities ≡ true
      → lookup "filesystem" (read_grants plan)
        ≡ some (
            config
              (record { write = some true; allowed = none; allowed_paths = plan.allowed_paths }))
  unfolding read_grants
  read_lem e =
      let so_far = filesystem_config-eq (write_grants plan) _ (write_lem e) in
      elim (Bool-cases (contains "FILESYSTEM_READ" plan.required_capabilities)) [
        | inl r ↦ rw r (rw lookup-insert (rw so_far))
        | inr r ↦ rw r (write_lem e)
      ]

  test_other :
      (k : String)
      → str_eq k "test_execution" ≡ false
      → lookup k (test_grants plan) ≡ lookup k (read_grants plan)
  unfolding test_grants
  test_other k n = elim (Bool-cases (contains "TEST_EXECUTION" plan.required_capabilities)) [
    | inl r ↦ rw r (rw lookup-insert (rw n))
    | inr r ↦ rw r
  ]

  test_self :
      contains "TEST_EXECUTION" plan.required_capabilities ≡ true
      → lookup "test_execution" (test_grants plan) ≡ some allowed_grant
  unfolding test_grants
  test_self e = rw e (rw lookup-insert)

  artifact_other :
      (k : String)
      → str_eq k "artifact_generation" ≡ false
      → lookup k (artifact_grants plan) ≡ lookup k (test_grants plan)
  unfolding artifact_grants
  artifact_other k n =
      elim (Bool-cases (contains "ARTIFACT_GENERATION" plan.required_capabilities)) [
        | inl r ↦ rw r (rw lookup-insert (rw n))
        | inr r ↦ rw r
      ]

  -- A plan that requires writing is granted writing, and the plan's own paths.
  pub filesystem_granted :
      contains "FILESYSTEM_WRITE" plan.required_capabilities ≡ true
      → lookup "filesystem" (artifact_grants plan)
        ≡ some (
            config
              (record { write = some true; allowed = none; allowed_paths = plan.allowed_paths }))
  filesystem_granted e =
      artifact_other "filesystem" refl ∙ test_other "filesystem" refl ∙ read_lem e

  -- A plan that requires test execution is granted it.
  pub test_execution_granted :
      contains "TEST_EXECUTION" plan.required_capabilities ≡ true
      → lookup "test_execution" (artifact_grants plan) ≡ some allowed_grant
  test_execution_granted e = artifact_other "test_execution" refl ∙ test_self e

-- A lease that was issued for a plan with the capabilities built from it.
pub record IsLeaseOf (p : Platform) (t : ℕ) (lease_id : String) (plan : Plan) (l : Lease)
    : Type 0 where
  pub id : l.lease_id ≡ lease_id
  pub bound : l.execution_plan_id ≡ plan.plan_id
  pub granted : l.granted_capabilities ≡ artifact_grants plan
  pub denied :
      l.denied_capabilities ≡ ("network_access", true) ∷ ("dependency_installation", true) ∷ []
  pub paths : l.allowed_paths ≡ plan.allowed_paths
  pub from : l.valid_from ≡ some (p.isoformat t)
  pub until : l.expires_at ≡ some (p.isoformat (t + 300 * 1000000))
  pub active : l.revocation_status ≡ "active"

pub issue_lease-IsLeaseOf :
    (c : Crypto) (p : Platform) (t : ℕ) (lease_id : String) (plan : Plan) (node_id : String)
    (l : Lease)
    → issue_lease c p t lease_id plan (build_capabilities_from_plan plan) 300 node_id ≡ ok l
    → IsLeaseOf p t lease_id plan l
unfolding issue_lease build_capabilities_from_plan
issue_lease-IsLeaseOf c p t lease_id plan node_id l e =
    let (g, form) = sign_and_attach-form c issuer _ l e in
    rw form (record {
      id = refl;
      bound = refl;
      granted = refl;
      denied = refl;
      paths = refl;
      from = refl;
      until = refl;
      active = refl;
    })
