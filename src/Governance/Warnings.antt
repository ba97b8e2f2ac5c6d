-- ===== src/Governance/Warnings.antt =====
-- swarm/governance/warnings.py, as far as the lifecycle uses it: the warning that one actor holds
-- several roles, the records of warnings, and the event of a reduced assurance.
use acds.Prelude.{
  ℕ, ◌+◌, String, Bool, true, false, not, ◌&&◌, ◌||◌, Option, none, some, List, [], ◌∷◌, ok,
  if◌then◌else◌, str_eq, leb, is_empty, all, contains,
}
use acds.Prelude.States.{lift, ◌>>=◌, ◌>>◌}
use acds.Governance.Registry.{
  Severity, warn, block, Event, Warning, ReducedEvent, Source, Governed, tick, record_event,
  create_governance_warning_record,
}

-- `previous == {role}` for the set of the roles of a list.
abbrev pub is_only : String → List String → Bool
is_only role previous = not (is_empty previous) && all (str_eq role) previous

abbrev count : Bool → ℕ
count true = 1
count false = 0

-- `len(all_roles & {"author", "reviewer", "publisher"})`
abbrev pub governance_roles : List String → ℕ
governance_roles all_roles =
    count (contains "author" all_roles)
    + (count (contains "reviewer" all_roles) + count (contains "publisher" all_roles))

unfoldable pub reduction_type : List String → String → String
unfolding all
reduction_type previous current_role =
    if is_only "author" previous && str_eq current_role "reviewer"
    then "author_reviewer_role_collapse"
    else if is_only "reviewer" previous && str_eq current_role "publisher"
    then "reviewer_publisher_role_collapse"
    else "single_operator_path"

unfoldable pub severity_of : List String → String → Severity
unfolding contains
severity_of previous current_role =
    if leb 3 (governance_roles (current_role ∷ previous)) then block else warn

abbrev pub decision_of : Severity → String
decision_of warn = "deferred"
decision_of block = "blocked_by_system"

-- `_make_warning` for this family; its constant texts are left out.
unfoldable pub make_warning :
    Source → Severity → String → List String → String → String → String → String → Governed Warning
make_warning o severity trigger_stage refs swarm_id actor_id current_role notes = do
  n ← tick
  let decision_fingerprint = o.fingerprint severity trigger_stage refs swarm_id
  lift (
      ok (record {
        warning_id = o.warning_id decision_fingerprint (o.now n);
        swarm_id = swarm_id;
        warning_family = "reduced_assurance_governance";
        severity = severity;
        trigger_stage = trigger_stage;
        affected_artifact_refs = refs;
        affected_swarm_ref = swarm_id;
        operator_decision = decision_of severity;
        override_reason_category = none;
        override_reason = none;
        decision_fingerprint = decision_fingerprint;
        actor_id = actor_id;
        actor_role = current_role;
        acknowledged_at = none;
        notes = notes;
      }))

-- `evaluate_reduced_assurance_governance`; every caller passes refs.
unfoldable pub evaluate_reduced_assurance_governance :
    Source → List String → String → String → String → String → List String → Governed (List Warning)
unfolding reduction_type severity_of all
evaluate_reduced_assurance_governance o prior_roles current_role trigger_stage actor_id swarm_id
      refs =
    if is_empty prior_roles || is_only current_role prior_roles then lift (ok []) else do
      w ←
          make_warning o (severity_of prior_roles current_role) trigger_stage refs swarm_id actor_id
            current_role (reduction_type prior_roles current_role)
      lift (ok (w ∷ []))

abbrev pub Override : Type 0
Override = Option String × Option String

-- A truthy value replaces what is there.
abbrev pub or_keep : Option String → Option String → Option String
or_keep none before = before
or_keep (some s) before = if str_eq s "" then before else some s

-- `governance_warning_recorded`
abbrev pub warning_event : Warning → String → Event
warning_event w event_id = record {
  event_id = event_id;
  swarm_id = w.swarm_id;
  event_type = "governance_warning_recorded";
  actor_id = w.actor_id;
  from_state = none;
  to_state = none;
  actor_role = none;
  reason = none;
  related_entity_id = w.warning_id;
}

abbrev pub mirror : Source → Bool → Warning → Governed (Unit {0})
mirror o true w = lift (ok tt)
mirror o false w = do record_event o (warning_event w); lift (ok tt)

-- The loop of `persist_warning_records`, with the `payload` of each warning. Its swarm's id and the
-- affected swarm are the same here, and the event is recorded unless that is empty.
unfoldable pub persist_loop :
    Source → String → Override → Option String → List Warning → Governed (List Warning)
unfolding create_governance_warning_record record_event
persist_loop o operator_decision override acknowledged_at [] = lift (ok [])
persist_loop o operator_decision override acknowledged_at (w ∷ warnings) = do
  let payload = record w {
    operator_decision = operator_decision;
    acknowledged_at = or_keep acknowledged_at w.acknowledged_at;
    override_reason_category = or_keep override.0 w.override_reason_category;
    override_reason = or_keep override.1 w.override_reason;
  }
  warning_id ← create_governance_warning_record payload
  mirror o (str_eq w.swarm_id "") payload
  rest ← persist_loop o operator_decision override acknowledged_at warnings
  lift (ok (record payload { warning_id = warning_id } ∷ rest))

-- `persist_warning_records`
unfoldable pub persist_warning_records :
    Source → String → Override → Bool → List Warning → Governed (List Warning)
unfolding persist_loop
persist_warning_records o operator_decision override false warnings =
    persist_loop o operator_decision override none warnings
persist_warning_records o operator_decision override true warnings = do
  n ← tick
  persist_loop o operator_decision override (some (o.now n)) warnings

-- `build_reduced_assurance_event` of a warning of this family, with the arguments that the lifecycle
-- passes; its texts are left out.
unfoldable pub build_reduced_assurance_event :
    Source → Warning → String → String → String → String → Governed ReducedEvent
build_reduced_assurance_event o w action_type actor_id actor_role swarm_id = do
  n ← tick
  lift (
      ok (record {
        event_id = o.reduced_id w.warning_id (o.now n);
        swarm_id = swarm_id;
        governance_action_type = action_type;
        reduction_type = if str_eq w.notes "" then "single_operator_path" else w.notes;
        warning_record_ref = w.warning_id;
        actor_id = actor_id;
        actor_role = actor_role;
        acknowledged_by = actor_id;
        acknowledged_at = w.acknowledged_at;
      }))
