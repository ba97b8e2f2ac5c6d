-- ===== src/Governance/Guards.antt =====
-- swarm/governance/lifecycle.py: the tests of a transition that only read.
use acds.Prelude.{
  String, Bool, true, not, Option, none, some, List, Result, ok, err, ◌>>=◌, if◌then◌else◌, str_eq,
  contains,
}
use acds.Governance.Registry.{
  Refusal, invalid_state, transition_not_allowed, wrong_role, Registry, get_swarm,
}
use acds.Governance.Tables.{lifecycle_states, allowed_from, required_role}

-- `get_allowed_transitions`
unfoldable pub get_allowed_transitions : Registry → String → Result Refusal (List String)
unfolding allowed_from
get_allowed_transitions g swarm_id = do
  swarm ← get_swarm g swarm_id
  ok (allowed_from swarm.lifecycle_status)

-- "if required_role and actor_role != required_role"
abbrev pub role_satisfied : Option String → String → Bool
role_satisfied none actor_role = true
role_satisfied (some role) actor_role = if str_eq role "" then true else str_eq actor_role role

abbrev pub check_from : String → String → String → Result Refusal String
check_from to_state actor_role from_state =
    if not (contains to_state lifecycle_states)
    then err (invalid_state to_state)
    else if not (contains to_state (allowed_from from_state))
    then err (transition_not_allowed from_state to_state)
    else if not (role_satisfied (required_role from_state to_state) actor_role)
    then err (wrong_role from_state to_state)
    else ok from_state

-- The tests of `transition` before the warnings; it returns `from_state`.
unfoldable pub check_transition : Registry → String → String → String → Result Refusal String
unfolding contains lifecycle_states allowed_from required_role
check_transition g swarm_id to_state actor_role = do
  swarm ← get_swarm g swarm_id
  check_from to_state actor_role swarm.lifecycle_status
