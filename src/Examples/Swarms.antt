-- ===== src/Examples/Swarms.antt =====
-- The life of one swarm, step by step.
use Prim.Native.String.{◌++◌}
use acds.Prelude.{
  ℕ, zero, suc, String, ◌≡◌, refl, ap, sym, subst, ◌⊎◌, inl, inr, Bool-cases, true, false, Option,
  none, some, [], ◌∷◌, Result, ok, err, str_eq, lookup, contains, any, all, keep, insert,
}
use acds.Governance.Registry.{
  Refusal, unacknowledged, Swarm, warn, Registry, Source, get_actor_roles_for_swarm, event_roles,
  update_swarm, id_taken, record_event, create_governance_warning_record,
  create_reduced_assurance_governance_event,
}
use acds.Governance.Warnings.{
  evaluate_reduced_assurance_governance, make_warning, severity_of, reduction_type, persist_loop,
  persist_warning_records, build_reduced_assurance_event,
}
use acds.Governance.Tables.{
  lifecycle_states, allowed_from, allowed_transitions, required_role, transition_roles, lookup_pair,
  transition_event_type, event_map, to_governance_action_type, state_ref,
}
use acds.Governance.Guards.{check_transition}
use acds.Governance.Lifecycle.{
  watched_states, provided_fingerprints, evaluate_transition_warnings, record_reduced, record_all,
  settle_warns, settle_warnings, perform_transition, transition,
}
use acds.Governance.Lifecycle.Roles.{allowed-IsGoverned}
use acds.Governance.Lifecycle.Frame.{Grows}
use acds.Governance.Lifecycle.Moves.{IsMove, IsUnrecorded, transition-IsMove, transition-refused}
use acds.Governance.Lifecycle.Settling.{HoldsAll, is_exempt}
use acds.Governance.Lifecycle.Separation.{transition-separates, transition-acknowledged}
use acds.Governance.Lifecycle.Vetting.{
  IsLost, NoneLost, AreVetted, vetted_states, Reach, start, next, Reach-AreVetted, Reach-revoked,
}

abbrev numbered : ℕ → String
numbered zero = "evt"
numbered (suc n) = "x" ++ numbered n

abbrev source : Source
source = record {
  now = λ n. "now";
  new_id = numbered;
  warning_id = λ fingerprint now. "w-new";
  reduced_id = λ warning now. "ra";
  fingerprint = λ severity stage refs swarm. "fp";
}

abbrev other : String → String → String
other from to = "other"

-- Ann made the swarm, and it is under review.
abbrev reviewed : Registry
reviewed = record {
  swarms =
      ("s1", record { lifecycle_status = "reviewing"; created_by = "ann" })
      ∷ ("s2", record { lifecycle_status = "revoked"; created_by = "ann" })
      ∷ [];
  events = [];
  warnings =
      (
        "w1",
        record {
          warning_id = "w1";
          swarm_id = "s1";
          warning_family = "reduced_assurance_governance";
          severity = warn;
          trigger_stage = "governance_transition";
          affected_artifact_refs = [];
          affected_swarm_ref = "s1";
          operator_decision = "deferred";
          override_reason_category = none;
          override_reason = none;
          decision_fingerprint = "fp";
          actor_id = "ann";
          actor_role = "reviewer";
          acknowledged_at = none;
          notes = "author_reviewer_role_collapse";
        },
      )
      ∷ [];
  reduced = [];
  ticks = 0;
}

abbrev approved : Result Refusal String × Registry
approved =
    transition source other "s1" "approved" "ann" "reviewer" none ("w1" ∷ []) (none, none) reviewed

approved_eq : approved ≡ (ok "xxxxxevt", approved.1)
unfolding transition check_transition lifecycle_states allowed_from allowed_transitions
    required_role transition_roles lookup_pair evaluate_transition_warnings watched_states
    evaluate_reduced_assurance_governance make_warning severity_of reduction_type
    get_actor_roles_for_swarm event_roles settle_warnings settle_warns keep provided_fingerprints
    persist_warning_records persist_loop create_governance_warning_record record_event record_all
    record_reduced build_reduced_assurance_event create_reduced_assurance_governance_event
    to_governance_action_type perform_transition update_swarm id_taken transition_event_type
    event_map contains lookup insert any all
approved_eq = refl

is_watched : contains "approved" watched_states ≡ true
unfolding contains watched_states
is_watched = refl

not_exempt : is_exempt (get_actor_roles_for_swarm reviewed "s1" "ann") "reviewer" ≡ false
unfolding get_actor_roles_for_swarm event_roles lookup all
not_exempt = refl

transition-IsMove_example :
    IsMove source other "s1" "approved" "ann" "reviewer" none "xxxxxevt" reviewed approved.1
transition-IsMove_example =
    transition-IsMove source other "s1" "approved" "ann" "reviewer" none ("w1" ∷ []) (none, none)
      "xxxxxevt" reviewed approved.1 approved_eq

transition-separates_example :
    ¬ HoldsAll ("reviewer" ∷ get_actor_roles_for_swarm reviewed "s1" "ann")
transition-separates_example =
    transition-separates source other "s1" "approved" "ann" "reviewer" none ("w1" ∷ []) (none, none)
      "xxxxxevt" reviewed approved.1 is_watched approved_eq

transition-acknowledged_example :
    contains
      (source.fingerprint warn "governance_transition" ("s1" ∷ state_ref "approved" ∷ []) "s1")
      (provided_fingerprints reviewed ("w1" ∷ []))
    ≡ true
transition-acknowledged_example =
    transition-acknowledged source other "s1" "approved" "ann" "reviewer" none ("w1" ∷ [])
      (none, none) "xxxxxevt" reviewed approved.1 is_watched not_exempt approved_eq

-- The same without the id of a warning is refused.
abbrev unsettled : Result Refusal String × Registry
unsettled = transition source other "s1" "approved" "ann" "reviewer" none [] (none, none) reviewed

unsettled_eq : unsettled ≡ (err unacknowledged, unsettled.1)
unfolding transition check_transition lifecycle_states allowed_from allowed_transitions
    required_role transition_roles lookup_pair evaluate_transition_warnings watched_states
    evaluate_reduced_assurance_governance make_warning severity_of reduction_type
    get_actor_roles_for_swarm event_roles settle_warnings settle_warns keep provided_fingerprints
    persist_warning_records persist_loop create_governance_warning_record record_event id_taken
    contains lookup insert any all
unsettled_eq = refl

transition-refused_example :
    Grows reviewed unsettled.1
    ⊎ IsUnrecorded "s1" "approved" "reviewer" unacknowledged reviewed unsettled.1
transition-refused_example =
    transition-refused source other "s1" "approved" "ann" "reviewer" none [] (none, none)
      unacknowledged reviewed unsettled.1 unsettled_eq

abbrev status : Option Swarm → String
status none = ""
status (some x) = x.lifecycle_status

reviewed-AreVetted : AreVetted reviewed
unfolding lookup contains vetted_states
reviewed-AreVetted k swarm e s = elim (Bool-cases (str_eq k "s1")) [
  | inl y ↦
      let st = ap status (rw y at e) in
      absurd (cc (subst (λ x. contains x vetted_states ≡ true) (sym st) s))
  | inr n ↦ elim (Bool-cases (str_eq k "s2")) [
    | inl y ↦
        let st = ap status (rw (n, y) at e) in
        absurd (cc (subst (λ x. contains x vetted_states ≡ true) (sym st) s))
    | inr m ↦ absurd (cc (rw (n, m) at e))
  ]
]

abbrev reached : Reach source other reviewed approved.1
reached = next "s1" "approved" "ann" "reviewer" none ("w1" ∷ []) (none, none) start

none_lost : NoneLost source other reached
none_lost = (tt, subst (λ r. ¬ IsLost r.0) (sym approved_eq) λ x. x)

Reach-AreVetted_example : AreVetted approved.1
Reach-AreVetted_example =
    Reach-AreVetted source other reviewed approved.1 reviewed-AreVetted reached none_lost

revoked_lookup :
    lookup "s2" reviewed.swarms ≡ some (record { lifecycle_status = "revoked"; created_by = "ann" })
unfolding lookup
revoked_lookup = refl

Reach-revoked_example :
    lookup "s2" approved.1.swarms
    ≡ some (record { lifecycle_status = "revoked"; created_by = "ann" })
Reach-revoked_example =
    Reach-revoked source other reviewed approved.1 "s2"
      (record { lifecycle_status = "revoked"; created_by = "ann" }) revoked_lookup refl reached

can_approve : contains "approved" (allowed_from "reviewing") ≡ true
unfolding contains allowed_from allowed_transitions lookup
can_approve = refl

allowed-IsGoverned_example :
    (contains "approved" lifecycle_states ≡ true)
    × ((role : String) × (required_role "reviewing" "approved" ≡ some role)
        × (str_eq role "" ≡ false))
    × ((event_type : String) × ((other : String → String → String)
          → transition_event_type other "reviewing" "approved" ≡ event_type))
    × (str_eq "reviewing" "revoked" ≡ false)
allowed-IsGoverned_example = allowed-IsGoverned "reviewing" "approved" can_approve
