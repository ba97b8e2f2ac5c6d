-- ===== src/Governance/Lifecycle.antt =====
-- swarm/governance/lifecycle.py, `LifecycleManager`: the transition of a swarm, and its wrappers.
pub mod Roles
pub mod Frame
pub mod Moves
pub mod Settling
pub mod Separation
pub mod Vetting
use acds.Prelude.{
  ℕ, suc, String, Bool, true, false, not, ◌&&◌, Option, none, some, List, [], ◌∷◌, ◌++◌, Result, ok,
  err, if◌then◌else◌, str_eq, opt_eq, is_empty, any, all, contains, keep, lookup,
}
use acds.Prelude.States.{Exec, lift, gets, modify, ◌>>=◌, ◌>>◌}
use acds.Governance.Registry.{
  Refusal, invalid_state, transition_not_allowed, wrong_role, blocked_by_policy, unacknowledged,
  Severity, warn, block, Swarm, Event, Warning, ReducedEvent, Registry, Source, Governed, get_swarm,
  update_swarm, record_event, create_reduced_assurance_governance_event, get_actor_roles_for_swarm,
}
use acds.Governance.Guards.{check_transition}
use acds.Governance.Warnings.{
  Override, evaluate_reduced_assurance_governance, persist_warning_records,
  build_reduced_assurance_event,
}
use acds.Governance.Tables.{
  lifecycle_states, allowed_from, required_role, transition_event_type, to_governance_action_type,
  state_ref,
}

-- The states into which a transition is watched for roles that collapse.
unfoldable pub watched_states : List String
watched_states = "approved" ∷ "enabled" ∷ "paused" ∷ "revoked" ∷ []

abbrev pub is_block : Warning → Bool
is_block w = elim w.severity [ warn ↦ false | block ↦ true ]

abbrev fingerprint_of : Option Warning → List String
fingerprint_of none = []
fingerprint_of (some w) = w.decision_fingerprint ∷ []

-- `provided_fingerprints`
unfoldable pub provided_fingerprints : Registry → List String → List String
unfolding lookup
provided_fingerprints g [] = []
provided_fingerprints g (warning_id ∷ ids) =
    fingerprint_of (lookup warning_id g.warnings) ++ provided_fingerprints g ids

abbrev pub in_list : List String → Warning → Bool
in_list fingerprints w = contains w.decision_fingerprint fingerprints

-- `reduced_assurance_governance_recorded`
abbrev pub reduced_recorded : String → String → String → String → Event
reduced_recorded swarm_id actor_id event_id id = record {
  event_id = id;
  swarm_id = swarm_id;
  event_type = "reduced_assurance_governance_recorded";
  actor_id = actor_id;
  from_state = none;
  to_state = none;
  actor_role = none;
  reason = none;
  related_entity_id = event_id;
}

-- "if reason": an empty one is left out.
abbrev given : Option String → Option String
given none = none
given (some s) = if str_eq s "" then none else some s

-- The event of the transition.
abbrev pub transition_event :
    (String → String → String)
    → String
    → String
    → String
    → String
    → String
    → Option String
    → String
    → Event
transition_event other swarm_id from_state to_state actor_id actor_role reason event_id = record {
  event_id = event_id;
  swarm_id = swarm_id;
  event_type = transition_event_type other from_state to_state;
  actor_id = actor_id;
  from_state = some from_state;
  to_state = some to_state;
  actor_role = some actor_role;
  reason = given reason;
  related_entity_id = swarm_id;
}

module _ (o : Source) where
  -- `_evaluate_transition_warnings`
  unfoldable pub evaluate_transition_warnings :
      String → String → String → String → Governed (List Warning)
  unfolding contains watched_states evaluate_reduced_assurance_governance get_actor_roles_for_swarm
  evaluate_transition_warnings swarm_id actor_id actor_role to_state =
      if not (contains to_state watched_states) then lift (ok []) else do
        prior_roles ← gets (λ g. get_actor_roles_for_swarm g swarm_id actor_id)
        evaluate_reduced_assurance_governance o prior_roles actor_role "governance_transition"
            actor_id swarm_id (swarm_id ∷ state_ref to_state ∷ [])

  -- The body of "for persisted_warning in persisted".
  unfoldable pub record_reduced : String → String → String → String → Warning → Governed (Unit {0})
  unfolding build_reduced_assurance_event create_reduced_assurance_governance_event record_event
      to_governance_action_type
  record_reduced swarm_id to_state actor_id actor_role w = do
    event ←
        build_reduced_assurance_event o w (to_governance_action_type to_state) actor_id actor_role
          swarm_id
    event_id ← create_reduced_assurance_governance_event event
    record_event o (reduced_recorded swarm_id actor_id event_id)
    lift (ok tt)

  unfoldable pub record_all : String → String → String → String → List Warning → Governed (Unit {0})
  unfolding record_reduced
  record_all swarm_id to_state actor_id actor_role [] = lift (ok tt)
  record_all swarm_id to_state actor_id actor_role (w ∷ warnings) = do
    record_reduced swarm_id to_state actor_id actor_role w
    record_all swarm_id to_state actor_id actor_role warnings

  -- "if current_warns": refuse those that are not acknowledged, or record those that are.
  unfoldable pub settle_warns :
      String
      → String
      → String
      → String
      → Override
      → List Warning
      → List Warning
      → Governed (Unit {0})
  unfolding persist_warning_records record_all
  settle_warns swarm_id to_state actor_id actor_role override warns missing =
      if is_empty missing
      then (do
        persisted ← persist_warning_records o "acknowledged_and_proceeded" override true warns
        record_all swarm_id to_state actor_id actor_role persisted)
      else (do
        persist_warning_records o "deferred" (none, none) false missing
        lift (err unacknowledged))

  -- What `transition` does about the warnings.
  unfoldable pub settle_warnings :
      String
      → String
      → String
      → String
      → List String
      → Override
      → List Warning
      → Governed (Unit {0})
  unfolding keep contains persist_warning_records provided_fingerprints settle_warns
  settle_warnings swarm_id to_state actor_id actor_role warning_ids override warnings =
      let warns = keep (λ w. not (is_block w)) warnings in
      let blocks = keep is_block warnings in
      if not (is_empty blocks)
      then (do
        persist_warning_records o "blocked_by_system" (none, none) false blocks
        lift (err blocked_by_policy))
      else if is_empty warns
      then lift (ok tt)
      else (do
        provided ← gets (λ g. provided_fingerprints g warning_ids)
        settle_warns swarm_id to_state actor_id actor_role override warns
            (keep (λ w. not (in_list provided w)) warns))

  module _ (other : String → String → String) where
    -- The last part of `transition`: the status, and the event.
    unfoldable pub perform_transition :
        String → String → String → String → String → Option String → Governed String
    unfolding update_swarm record_event transition_event_type
    perform_transition swarm_id from_state to_state actor_id actor_role reason = do
      modify (update_swarm swarm_id to_state)
      record_event o
          (transition_event other swarm_id from_state to_state actor_id actor_role reason)

    -- `transition`; `warning_ids` is empty where the source has `None`.
    unfoldable pub transition :
        String → String → String → String → Option String → List String → Override → Governed String
    unfolding check_transition evaluate_transition_warnings settle_warnings perform_transition
    transition swarm_id to_state actor_id actor_role reason warning_ids override = do
      checked ← gets (λ g. check_transition g swarm_id to_state actor_role)
      from_state ← lift checked
      warnings ← evaluate_transition_warnings swarm_id actor_id actor_role to_state
      settle_warnings swarm_id to_state actor_id actor_role warning_ids override warnings
      perform_transition swarm_id from_state to_state actor_id actor_role reason

    unfoldable pub submit_for_review : String → String → Governed String
    unfolding transition
    submit_for_review swarm_id actor_id =
        transition swarm_id "reviewing" actor_id "author" none [] (none, none)

    unfoldable pub approve :
        String → String → Option String → List String → Override → Governed String
    unfolding transition
    approve swarm_id actor_id reason warning_ids override =
        transition swarm_id "approved" actor_id "reviewer" reason warning_ids override

    unfoldable pub reject : String → String → Option String → Governed String
    unfolding transition
    reject swarm_id actor_id reason =
        transition swarm_id "rejected" actor_id "reviewer" reason [] (none, none)

    unfoldable pub publish : String → String → List String → Override → Governed String
    unfolding transition
    publish swarm_id actor_id warning_ids override =
        transition swarm_id "enabled" actor_id "publisher" none warning_ids override

    unfoldable pub pause :
        String → String → Option String → List String → Override → Governed String
    unfolding transition
    pause swarm_id actor_id reason warning_ids override =
        transition swarm_id "paused" actor_id "publisher" reason warning_ids override

    unfoldable pub revoke :
        String → String → Option String → List String → Override → Governed String
    unfolding transition
    revoke swarm_id actor_id reason warning_ids override =
        transition swarm_id "revoked" actor_id "publisher" reason warning_ids override

    unfoldable pub return_to_draft : String → String → Governed String
    unfolding transition
    return_to_draft swarm_id actor_id =
        transition swarm_id "drafting" actor_id "author" none [] (none, none)
