-- ===== src/Governance/Registry.antt =====
-- swarm/registry/repository.py and swarm/events/recorder.py, as far as the life of a swarm reads and
-- writes them: the tables `swarms`, `swarm_events`, `governance_warning_records` and
-- `reduced_assurance_governance_events` of SQLite, as lists of rows in the order of insertion. The
-- columns that no code of the lifecycle reads are left out.
use acds.Prelude.{
  ℕ, suc, String, ◌&&◌, Option, none, some, List, [], ◌∷◌, ◌++◌, Result, ok, err, if◌then◌else◌,
  str_eq, lookup, insert, has_key, any, Bool,
}
use acds.Prelude.States.{Exec}

-- What a governance operation raises.
pub data Refusal : Type 0 where
  swarm_not_found : String → Refusal
  invalid_state : String → Refusal
  -- "Transition ... → ... is not allowed"
  transition_not_allowed : String → String → Refusal
  -- "Transition ... requires role ..., got ..."
  wrong_role : String → String → Refusal
  -- "Governance transition blocked by governance warning policy"
  blocked_by_policy : Refusal
  -- "Explicit governance warning acknowledgment is required before this transition"
  unacknowledged : Refusal
  -- SQLite's IntegrityError for a primary key that is taken, of a row of `swarm_events` and of another
  event_id_taken integrity_error : String → Refusal

pub record Swarm : Type 0 where
  pub lifecycle_status : String
  pub created_by : String

-- A row of `swarm_events`, with the values of its `details` that the lifecycle reads or writes.
pub record Event : Type 0 where
  pub event_id : String
  pub swarm_id : String
  pub event_type : String
  pub actor_id : String
  pub from_state : Option String
  pub to_state : Option String
  pub actor_role : Option String
  pub reason : Option String
  pub related_entity_id : String

pub data Severity : Type 0 where
  warn block : Severity

-- A governance warning, and its row.
pub record Warning : Type 0 where
  pub warning_id : String
  pub swarm_id : String
  pub warning_family : String
  pub severity : Severity
  pub trigger_stage : String
  pub affected_artifact_refs : List String
  pub affected_swarm_ref : String
  pub operator_decision : String
  pub override_reason_category : Option String
  pub override_reason : Option String
  pub decision_fingerprint : String
  pub actor_id : String
  pub actor_role : String
  pub acknowledged_at : Option String
  pub notes : String

pub record ReducedEvent : Type 0 where
  pub event_id : String
  pub swarm_id : String
  pub governance_action_type : String
  pub reduction_type : String
  pub warning_record_ref : String
  pub actor_id : String
  pub actor_role : String
  pub acknowledged_by : String
  pub acknowledged_at : Option String

pub record Registry : Type 0 where
  pub swarms : List (String × Swarm)
  pub events : List Event
  pub warnings : List (String × Warning)
  pub reduced : List (String × ReducedEvent)
  -- how many times the clock and the source of ids were read
  pub ticks : ℕ

-- The clock, the fresh ids, and hashlib's digests of what they are made of.
pub record Source : Type 0 where
  -- `_now()` and `_new_id("evt")` at the n-th reading
  pub now : ℕ → String
  pub new_id : ℕ → String
  -- `warn-...` of a fingerprint and `_now()`, `ra-...` of a warning's id and `_now()`
  pub warning_id : String → String → String
  pub reduced_id : String → String → String
  -- `_decision_fingerprint` of the values that it reads and that are no constants of the family:
  -- severity, stage, refs (sorted there) and swarm
  pub fingerprint : Severity → String → List String → String → String

abbrev pub Governed : Type 0 → Type 0
Governed A = Exec Registry Refusal A

abbrev pub tick : Governed ℕ
tick g = (ok g.ticks, record g { ticks = suc g.ticks })

abbrev found : String → Option Swarm → Result Refusal Swarm
found swarm_id none = err (swarm_not_found swarm_id)
found swarm_id (some swarm) = ok swarm

-- `get_swarm`, and the lifecycle's refusal of a missing swarm.
abbrev pub get_swarm : Registry → String → Result Refusal Swarm
get_swarm g swarm_id = found swarm_id (lookup swarm_id g.swarms)

abbrev pub with_status :
    String → String → List (String × Swarm) → Option Swarm → List (String × Swarm)
with_status swarm_id status swarms none = swarms
with_status swarm_id status swarms (some swarm) =
    insert swarm_id (record swarm { lifecycle_status = status }) swarms

-- `update_swarm(swarm_id, lifecycle_status=...)`: an UPDATE, which adds no row.
unfoldable pub update_swarm : String → String → Registry → Registry
update_swarm swarm_id status g = record g {
  swarms = with_status swarm_id status g.swarms (lookup swarm_id g.swarms);
}

-- Whether `event_id`, the primary key of `swarm_events`, is taken.
unfoldable pub id_taken : String → List Event → Bool
unfolding any
id_taken event_id = any (λ (e : Event). str_eq event_id e.event_id)

-- `record_event`; the row's id is the next fresh one.
unfoldable pub record_event : Source → (String → Event) → Governed String
unfolding id_taken
record_event o row g =
    let event_id = o.new_id g.ticks in
    if id_taken event_id g.events
    then (err (event_id_taken event_id), record g { ticks = suc g.ticks })
    else (ok event_id, record g { ticks = suc g.ticks; events = g.events ++ row event_id ∷ [] })

-- `create_governance_warning_record`
unfoldable pub create_governance_warning_record : Warning → Governed String
create_governance_warning_record w g =
    if has_key w.warning_id g.warnings
    then (err (integrity_error w.warning_id), g)
    else (ok w.warning_id, record g { warnings = insert w.warning_id w g.warnings })

-- `create_reduced_assurance_governance_event`
unfoldable pub create_reduced_assurance_governance_event : ReducedEvent → Governed String
create_reduced_assurance_governance_event e g =
    if has_key e.event_id g.reduced
    then (err (integrity_error e.event_id), g)
    else (ok e.event_id, record g { reduced = insert e.event_id e g.reduced })

abbrev author_role : String → Option Swarm → List String
author_role actor_id none = []
author_role actor_id (some swarm) = if str_eq swarm.created_by actor_id then "author" ∷ [] else []

abbrev role_of : Option String → List String
role_of none = []
role_of (some role) = if str_eq role "" then [] else role ∷ []

unfoldable pub event_roles : String → String → List Event → List String
event_roles swarm_id actor_id [] = []
event_roles swarm_id actor_id (e ∷ events) =
    let rest = event_roles swarm_id actor_id events in
    if str_eq e.swarm_id swarm_id && str_eq e.actor_id actor_id
    then role_of e.actor_role ++ rest
    else rest

-- The roles that the actor has held for the swarm, as a list that may repeat a role.
unfoldable pub get_actor_roles_for_swarm : Registry → String → String → List String
unfolding event_roles
get_actor_roles_for_swarm g swarm_id actor_id =
    author_role actor_id (lookup swarm_id g.swarms) ++ event_roles swarm_id actor_id g.events
