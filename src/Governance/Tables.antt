-- ===== src/Governance/Tables.antt =====
-- swarm/governance/lifecycle.py: the tables of the lifecycle.
use Prim.Native.String.{◌++◌}
use acds.Prelude.{String, ◌&&◌, Option, none, some, List, [], ◌∷◌, if◌then◌else◌, str_eq, lookup}

-- `LIFECYCLE_STATES`
unfoldable pub lifecycle_states : List String
lifecycle_states =
    "drafting" ∷ "reviewing" ∷ "approved" ∷ "rejected" ∷ "enabled" ∷ "paused" ∷ "revoked" ∷ []

-- `ALLOWED_TRANSITIONS`
unfoldable pub allowed_transitions : List (String × List String)
allowed_transitions =
    ("drafting", "reviewing" ∷ "revoked" ∷ [])
    ∷ ("reviewing", "approved" ∷ "rejected" ∷ "drafting" ∷ [])
    ∷ ("approved", "enabled" ∷ "revoked" ∷ [])
    ∷ ("rejected", "drafting" ∷ [])
    ∷ ("enabled", "paused" ∷ "revoked" ∷ [])
    ∷ ("paused", "enabled" ∷ "revoked" ∷ [])
    ∷ ("revoked", [])
    ∷ []

-- A dictionary whose keys are pairs of states.
abbrev pub PairTable : Type 0
PairTable = List (String × String × String)

unfoldable pub lookup_pair : String → String → PairTable → Option String
lookup_pair from to [] = none
lookup_pair from to ((a, b, value) ∷ table) =
    if str_eq from a && str_eq to b then some value else lookup_pair from to table

-- `TRANSITION_ROLES`
unfoldable pub transition_roles : PairTable
transition_roles =
    ("drafting", "reviewing", "author")
    ∷ ("reviewing", "approved", "reviewer")
    ∷ ("reviewing", "rejected", "reviewer")
    ∷ ("reviewing", "drafting", "reviewer")
    ∷ ("approved", "enabled", "publisher")
    ∷ ("approved", "revoked", "publisher")
    ∷ ("rejected", "drafting", "author")
    ∷ ("enabled", "paused", "publisher")
    ∷ ("enabled", "revoked", "publisher")
    ∷ ("paused", "enabled", "publisher")
    ∷ ("paused", "revoked", "publisher")
    ∷ ("drafting", "revoked", "publisher")
    ∷ []

-- `event_map` of `_transition_event_type`
unfoldable pub event_map : PairTable
event_map =
    ("drafting", "reviewing", "swarm_submitted_for_review")
    ∷ ("reviewing", "approved", "swarm_approved")
    ∷ ("reviewing", "rejected", "swarm_rejected")
    ∷ ("reviewing", "drafting", "swarm_returned_to_draft")
    ∷ ("approved", "enabled", "swarm_activated")
    ∷ ("rejected", "drafting", "swarm_returned_to_draft")
    ∷ ("enabled", "paused", "swarm_paused")
    ∷ ("enabled", "revoked", "swarm_revoked")
    ∷ ("paused", "enabled", "swarm_reactivated")
    ∷ ("paused", "revoked", "swarm_revoked")
    ∷ ("drafting", "revoked", "swarm_revoked")
    ∷ ("approved", "revoked", "swarm_revoked")
    ∷ []

abbrev pub listed : Option (List String) → List String
listed none = []
listed (some states) = states

-- `ALLOWED_TRANSITIONS.get(from_state, set())`
unfoldable pub allowed_from : String → List String
unfolding allowed_transitions
allowed_from from = listed (lookup from allowed_transitions)

-- `TRANSITION_ROLES.get((from_state, to_state))`
unfoldable pub required_role : String → String → Option String
unfolding transition_roles lookup_pair
required_role from to = lookup_pair from to transition_roles

-- `_transition_event_type`; the name made for a pair that is not in the table is the argument.
unfoldable pub transition_event_type : (String → String → String) → String → String → String
unfolding event_map lookup_pair
transition_event_type other from to = elim (lookup_pair from to event_map) [
  | none ↦ other from to
  | some event_type ↦ event_type
]

-- `_to_governance_action_type`
unfoldable pub to_governance_action_type : String → String
to_governance_action_type to =
    if str_eq to "approved"
    then "plan_approval"
    else if str_eq to "enabled"
    then "publish_approval"
    else "other"

-- The second of a transition's `affected_artifact_refs`.
abbrev pub state_ref : String → String
state_ref to_state = "state->" ++ to_state
