-- ===== src/Governance/Lifecycle/Moves.antt =====
-- swarm/governance/lifecycle.py, `transition`: what it changes when it succeeds, and when it refuses.
use acds.Prelude.{
  String, ◌≡◌, sym, subst, ap, ◌∙◌, ◌⊎◌, inl, inr, true, false, Option, some, List, [], ◌∷◌, ◌++◌,
  Result, ok, err, if◌then◌else◌, arith, eq_iff, str_eq, contains, lookup, lookup-insert,
  Bool-cases, Option-cases, Result-cases, ok-injective, err-injective,
}
use acds.Prelude.States.{>>=-eq-ok, >>=-eq-err}
use acds.Governance.Registry.{
  Refusal, Swarm, Registry, Source, event_id_taken, id_taken, update_swarm, record_event,
}
use acds.Governance.Warnings.{Override}
use acds.Governance.Tables.{lifecycle_states, allowed_from, required_role}
use acds.Governance.Guards.{check_from, role_satisfied, check_transition}
use acds.Governance.Lifecycle.{
  evaluate_transition_warnings, settle_warnings, transition_event, perform_transition, transition,
}
use acds.Governance.Lifecycle.Roles.{allowed-IsGoverned}
use acds.Governance.Lifecycle.Frame.{
  Grows, Grows-same, Grows-trans, Keeps, evaluate-IsFramed, settle-IsFramed,
}

-- The transition is in the table, and the actor acts in the role that it requires.
abbrev pub IsPermitted : String → String → String → Type 0
IsPermitted from_state to_state actor_role =
    (contains to_state (allowed_from from_state) ≡ true)
    × (required_role from_state to_state ≡ some actor_role)

satisfied_lem :
    (role actor_role : String)
    → str_eq role "" ≡ false
    → role_satisfied (some role) actor_role ≡ true
    → actor_role ≡ role
satisfied_lem role actor_role n h = ground (arith, eq_iff actor_role role)

check_from-IsPermitted :
    (to_state actor_role from_state from : String)
    → check_from to_state actor_role from_state ≡ ok from
    → (from ≡ from_state) × IsPermitted from_state to_state actor_role
check_from-IsPermitted to_state actor_role from_state from h =
    elim (Bool-cases (contains to_state lifecycle_states)) [
      | inr n ↦ absurd (cc (rw n at h))
      | inl a ↦ elim (Bool-cases (contains to_state (allowed_from from_state))) [
        | inr n ↦ absurd (cc (rw (a, n) at h))
        | inl b ↦
            let (_, (role, e, named), _, _) = allowed-IsGoverned from_state to_state b in
            elim (Bool-cases (role_satisfied (some role) actor_role)) [
              | inr n ↦ absurd (cc (rw (a, b, e, n) at h))
              | inl y ↦ (
                cc (rw (a, b, e, y) at h),
                (b, e ∙ ap some (sym (satisfied_lem role actor_role named y))),
              )
            ]
      ]
    ]

check_transition-IsPermitted :
    (g : Registry) (swarm_id to_state actor_role from : String)
    → check_transition g swarm_id to_state actor_role ≡ ok from
    → (swarm : Swarm) × (lookup swarm_id g.swarms ≡ some swarm)
      × (from ≡ swarm.lifecycle_status)
      × IsPermitted swarm.lifecycle_status to_state actor_role
unfolding check_transition
check_transition-IsPermitted g swarm_id to_state actor_role from h =
    elim (Option-cases (lookup swarm_id g.swarms)) [
      | inl e ↦ absurd (cc (rw e at h))
      | inr (swarm, e) ↦
          let (same, permitted) =
            check_from-IsPermitted to_state actor_role swarm.lifecycle_status from (rw e at h) in
          (swarm, e, same, permitted)
    ]

grown :
    {A : Type 0} {a : Result Refusal A} (g g₁ : Registry) {r : Result Refusal A × Registry}
    → r ≡ (a, g₁)
    → Keeps g r
    → Grows g g₁
grown g g₁ e k = subst (Grows g) (ap (λ x. x.1) e) k.grows

-- Of a transition that raised: the last part of it had changed the status when the key of its event
-- turned out to be taken.
pub record IsUnrecorded (swarm_id to_state actor_role : String) (f : Refusal) (g g' : Registry)
    : Type 0 where
  pub swarm : Swarm
  pub was : lookup swarm_id g.swarms ≡ some swarm
  pub permitted : IsPermitted swarm.lifecycle_status to_state actor_role
  pub statuses :
      (k : String)
      → lookup k g'.swarms ≡ (
          if str_eq k swarm_id
          then some (record swarm { lifecycle_status = to_state })
          else lookup k g.swarms)
  pub before : Registry
  pub grows : Grows g before
  pub same_events : g'.events ≡ before.events
  pub event_id : String
  pub taken : id_taken event_id before.events ≡ true
  pub fault : f ≡ event_id_taken event_id

module _ (o : Source) (other : String → String → String) where
  -- What a transition that succeeded has done.
  pub record IsMove (swarm_id to_state actor_id actor_role : String) (reason : Option String)
      (event_id : String) (g g' : Registry) : Type 0 where
    pub swarm : Swarm
    pub was : lookup swarm_id g.swarms ≡ some swarm
    pub permitted : IsPermitted swarm.lifecycle_status to_state actor_role
    pub statuses :
        (k : String)
        → lookup k g'.swarms ≡ (
            if str_eq k swarm_id
            then some (record swarm { lifecycle_status = to_state })
            else lookup k g.swarms)
    pub before : Registry
    pub grows : Grows g before
    pub recorded :
        g'.events
        ≡ before.events
          ++ transition_event other swarm_id swarm.lifecycle_status to_state actor_id actor_role
              reason event_id
            ∷ []

  updated_lem :
      (swarm_id status k : String) (swarm : Swarm) (g g₂ : Registry)
      → Grows g g₂
      → lookup swarm_id g.swarms ≡ some swarm
      → lookup k (update_swarm swarm_id status g₂).swarms ≡ (
          if str_eq k swarm_id
          then some (record swarm { lifecycle_status = status })
          else lookup k g.swarms)
  unfolding update_swarm
  updated_lem swarm_id status k swarm g g₂ grows was = rw (grows.same_swarms, was, lookup-insert)

  perform-IsMove :
      (swarm_id to_state actor_id actor_role : String) (reason : Option String) (event_id : String)
      (swarm : Swarm) (g g₂ g' : Registry)
      → lookup swarm_id g.swarms ≡ some swarm
      → IsPermitted swarm.lifecycle_status to_state actor_role
      → Grows g g₂
      → perform_transition o other swarm_id swarm.lifecycle_status to_state actor_id actor_role
          reason g₂
        ≡ (ok event_id, g')
      → IsMove swarm_id to_state actor_id actor_role reason event_id g g'
  unfolding perform_transition record_event update_swarm
  perform-IsMove swarm_id to_state actor_id actor_role reason event_id swarm g g₂ g' was permitted
        grows h₀ =
      elim (Bool-cases (id_taken (o.new_id g₂.ticks) g₂.events)) [
        | inl y ↦ absurd (cc (rw y at h₀))
        | inr n ↦
            let h = rw n at h₀ in
            let same_id : o.new_id g₂.ticks ≡ event_id = ok-injective _ _ (ap (λ r. r.0) h) in
            record {
              swarm = swarm;
              was = was;
              permitted = permitted;
              statuses = λ k.
                  ap (λ r. lookup k r.1.swarms) (sym h)
                  ∙ updated_lem swarm_id to_state k swarm g g₂ grows was;
              before = g₂;
              grows = grows;
              recorded =
                  ap (λ r. r.1.events) (sym h)
                  ∙ ap
                      (λ id.
                        g₂.events
                        ++ transition_event other swarm_id swarm.lifecycle_status to_state actor_id
                            actor_role reason id
                          ∷ [])
                      same_id;
            }
      ]

  perform-IsUnrecorded :
      (swarm_id to_state actor_id actor_role : String) (reason : Option String) (f : Refusal)
      (swarm : Swarm) (g g₂ g' : Registry)
      → lookup swarm_id g.swarms ≡ some swarm
      → IsPermitted swarm.lifecycle_status to_state actor_role
      → Grows g g₂
      → perform_transition o other swarm_id swarm.lifecycle_status to_state actor_id actor_role
          reason g₂
        ≡ (err f, g')
      → IsUnrecorded swarm_id to_state actor_role f g g'
  unfolding perform_transition record_event update_swarm
  perform-IsUnrecorded swarm_id to_state actor_id actor_role reason f swarm g g₂ g' was permitted
        grows h₀ =
      elim (Bool-cases (id_taken (o.new_id g₂.ticks) g₂.events)) [
        | inr n ↦ absurd (cc (rw n at h₀))
        | inl y ↦
            let h = rw y at h₀ in
            record {
              swarm = swarm;
              was = was;
              permitted = permitted;
              statuses = λ k.
                  ap (λ r. lookup k r.1.swarms) (sym h)
                  ∙ updated_lem swarm_id to_state k swarm g g₂ grows was;
              before = g₂;
              grows = grows;
              same_events = ap (λ r. r.1.events) (sym h);
              event_id = o.new_id g₂.ticks;
              taken = y;
              fault = sym (err-injective _ _ (ap (λ r. r.0) h));
            }
      ]

  -- A transition that succeeds is in the table and was made in the required role; it changes the
  -- status of this swarm alone, and the last event names both states and the role.
  pub transition-IsMove :
      (swarm_id to_state actor_id actor_role : String) (reason : Option String)
      (warning_ids : List String) (override : Override) (event_id : String) (g g' : Registry)
      → transition o other swarm_id to_state actor_id actor_role reason warning_ids override g
        ≡ (ok event_id, g')
      → IsMove swarm_id to_state actor_id actor_role reason event_id g g'
  unfolding transition
  transition-IsMove swarm_id to_state actor_id actor_role reason warning_ids override event_id g g'
        h =
      elim (Result-cases (check_transition g swarm_id to_state actor_role)) [
        | inr (x, e) ↦ absurd (cc (rw e at h))
        | inl (from, e) ↦
            let (swarm, was, same, permitted) =
              check_transition-IsPermitted g swarm_id to_state actor_role from e in
            let (ws, g₁, e₁, h₁) =
              >>=-eq-ok (evaluate_transition_warnings o swarm_id actor_id actor_role to_state) _ g
                g' event_id (rw e at h) in
            let (_, g₂, e₂, h₂) =
              >>=-eq-ok
                (settle_warnings o swarm_id to_state actor_id actor_role warning_ids override ws) _
                g₁ g' event_id h₁ in
            perform-IsMove swarm_id to_state actor_id actor_role reason event_id swarm g g₂ g' was
              permitted
              (Grows-trans g g₁ g₂
                (grown g g₁ e₁ (evaluate-IsFramed o swarm_id actor_id actor_role to_state g))
                (grown g₁ g₂ e₂ (
                  settle-IsFramed o swarm_id to_state actor_id actor_role warning_ids override ws
                    g₁)))
              (subst
                (λ x.
                  perform_transition o other swarm_id x to_state actor_id actor_role reason g₂
                  ≡ (ok event_id, g'))
                same h₂)
      ]

  -- A transition that raises changes no swarm and adds no event that holds a role, unless it raises
  -- because the id of its own event is taken: then the status has been changed, as the table and the
  -- role permit, and the event is missing.
  pub transition-refused :
      (swarm_id to_state actor_id actor_role : String) (reason : Option String)
      (warning_ids : List String) (override : Override) (f : Refusal) (g g' : Registry)
      → transition o other swarm_id to_state actor_id actor_role reason warning_ids override g
        ≡ (err f, g')
      → Grows g g' ⊎ IsUnrecorded swarm_id to_state actor_role f g g'
  unfolding transition
  transition-refused swarm_id to_state actor_id actor_role reason warning_ids override f g g' h =
      elim (Result-cases (check_transition g swarm_id to_state actor_role)) [
        | inr (x, e) ↦ inl (
            Grows-same g g' (ap (λ r. r.1.swarms) (sym (rw e at h)))
              (ap (λ r. r.1.events) (sym (rw e at h))))
        | inl (from, e) ↦
            let (swarm, was, same, permitted) =
              check_transition-IsPermitted g swarm_id to_state actor_role from e in
            elim (>>=-eq-err (evaluate_transition_warnings o swarm_id actor_id actor_role to_state)
              _ g g' f (rw e at h)) [
                | inl e₁ ↦
                    inl
                      (grown g g' e₁ (evaluate-IsFramed o swarm_id actor_id actor_role to_state g))
                | inr (ws, g₁, e₁, h₁) ↦
                    let grows₁ =
                      grown g g₁ e₁ (evaluate-IsFramed o swarm_id actor_id actor_role to_state g) in
                    elim (>>=-eq-err
                      (settle_warnings o swarm_id to_state actor_id actor_role warning_ids override
                        ws)
                      _ g₁ g' f h₁) [
                        | inl e₂ ↦ inl (
                            Grows-trans g g₁ g' grows₁ (
                              grown g₁ g' e₂ (
                                settle-IsFramed o swarm_id to_state actor_id actor_role warning_ids
                                  override ws g₁)))
                        | inr (_, g₂, e₂, h₂) ↦ inr (
                            perform-IsUnrecorded swarm_id to_state actor_id actor_role reason f
                              swarm g g₂ g' was permitted
                              (Grows-trans g g₁ g₂ grows₁ (
                                grown g₁ g₂ e₂ (
                                  settle-IsFramed o swarm_id to_state actor_id actor_role
                                    warning_ids override ws g₁)))
                              (subst
                                (λ x.
                                  perform_transition o other swarm_id x to_state actor_id actor_role
                                    reason g₂
                                  ≡ (err f, g'))
                                same h₂))
                      ]
              ]
      ]
