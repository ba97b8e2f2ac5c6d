-- ===== src/Governance/Lifecycle/Separation.antt =====
-- swarm/governance: how far one actor may act in several roles.
use acds.Prelude.{
  suc, String, ◌≡◌, sym, ap, ◌∙◌, inl, inr, true, false, Option, List, [], ◌∷◌, ok, contains,
  Bool-cases, Result-cases,
}
use acds.Prelude.States.{◌>>=◌, continue, >>=-eq-ok}
use acds.Governance.Registry.{warn, Registry, Source, get_actor_roles_for_swarm}
use acds.Governance.Warnings.{Override, severity_of}
use acds.Governance.Tables.{state_ref}
use acds.Governance.Guards.{check_transition}
use acds.Governance.Lifecycle.{
  provided_fingerprints, watched_states, evaluate_transition_warnings, settle_warnings, transition,
}
use acds.Governance.Lifecycle.Settling.{
  HoldsAll, is_exempt, exempt-lem, severity_lem, provided_ticks, settle-eq-ok, evaluate-eq,
}

module _ (o : Source) where
  transition-settles :
      (other : String → String → String) (swarm_id to_state actor_id actor_role : String)
      (reason : Option String) (ids : List String) (override : Override) (event_id : String)
      (g g' : Registry)
      → transition o other swarm_id to_state actor_id actor_role reason ids override g
        ≡ (ok event_id, g')
      → (u : Unit {0}) × (g₂ : Registry) × ((evaluate_transition_warnings o swarm_id actor_id
                actor_role to_state
              >>= settle_warnings o swarm_id to_state actor_id actor_role ids override)
            g
          ≡ (ok u, g₂))
  unfolding transition
  transition-settles other swarm_id to_state actor_id actor_role reason ids override event_id g g'
        h =
      elim (Result-cases (check_transition g swarm_id to_state actor_role)) [
        | inr (x, e) ↦ absurd (cc (rw e at h))
        | inl (from, e) ↦
            let (ws, g₁, e₁, h₁) =
              >>=-eq-ok (evaluate_transition_warnings o swarm_id actor_id actor_role to_state) _ g
                g' event_id (rw e at h) in
            let (u, g₂, e₂, _) =
              >>=-eq-ok (settle_warnings o swarm_id to_state actor_id actor_role ids override ws) _
                g₁ g' event_id h₁ in
            (
              u,
              g₂,
              ap
                    (λ r.
                      continue r.0
                        (settle_warnings o swarm_id to_state actor_id actor_role ids override) r.1)
                    e₁
                  ∙ e₂,
            )
      ]

  -- A transition into a watched state that succeeds, by an actor that is not exempt, was settled.
  settled_lem :
      (other : String → String → String) (swarm_id to_state actor_id actor_role : String)
      (reason : Option String) (ids : List String) (override : Override) (event_id : String)
      (g g' : Registry)
      → transition o other swarm_id to_state actor_id actor_role reason ids override g
        ≡ (ok event_id, g')
      → contains to_state watched_states ≡ true
      → is_exempt (get_actor_roles_for_swarm g swarm_id actor_id) actor_role ≡ false
      → (severity_of (get_actor_roles_for_swarm g swarm_id actor_id) actor_role ≡ warn)
        × (contains
              (o.fingerprint
                (severity_of (get_actor_roles_for_swarm g swarm_id actor_id) actor_role)
                "governance_transition"
                (swarm_id ∷ state_ref to_state ∷ [])
                swarm_id)
              (provided_fingerprints g ids)
            ≡ true)
  settled_lem other swarm_id to_state actor_id actor_role reason ids override event_id g g' h
        watched n =
      let (u, g₂, e) =
        transition-settles other swarm_id to_state actor_id actor_role reason ids override event_id
          g g' h in
      let seen = evaluate-eq o swarm_id to_state actor_id actor_role g watched n in
      let settled =
        ap
          (λ r.
            continue r.0 (settle_warnings o swarm_id to_state actor_id actor_role ids override) r.1)
          (sym seen)
        ∙ e in
      let (a, b) =
        settle-eq-ok o swarm_id to_state actor_id actor_role ids override _ _ g₂ u settled in
      (a, rw (provided_ticks g (suc g.ticks) ids) at b)

  -- An actor who, acting in this role, would have held all three roles of the governance of a swarm
  -- never moves it to "approved", "enabled", "paused" or "revoked".
  pub transition-separates :
      (other : String → String → String) (swarm_id to_state actor_id actor_role : String)
      (reason : Option String) (ids : List String) (override : Override) (event_id : String)
      (g g' : Registry)
      → contains to_state watched_states ≡ true
      → transition o other swarm_id to_state actor_id actor_role reason ids override g
        ≡ (ok event_id, g')
      → ¬ HoldsAll (actor_role ∷ get_actor_roles_for_swarm g swarm_id actor_id)
  transition-separates other swarm_id to_state actor_id actor_role reason ids override event_id g g'
        watched h all_three =
      elim (Bool-cases (is_exempt (get_actor_roles_for_swarm g swarm_id actor_id) actor_role)) [
        | inl e ↦ exempt-lem actor_role (get_actor_roles_for_swarm g swarm_id actor_id) e all_three
        | inr n ↦
            let (a, _) =
              settled_lem other swarm_id to_state actor_id actor_role reason ids override event_id g
                g' h watched n in
            absurd (
              cc (
                a,
                severity_lem actor_role (get_actor_roles_for_swarm g swarm_id actor_id) all_three,
              ))
      ]

  -- An actor who has held another role moves a swarm to "approved", "enabled", "paused" or "revoked"
  -- only with the id of a stored warning whose fingerprint is that of the warning for this transition.
  pub transition-acknowledged :
      (other : String → String → String) (swarm_id to_state actor_id actor_role : String)
      (reason : Option String) (ids : List String) (override : Override) (event_id : String)
      (g g' : Registry)
      → contains to_state watched_states ≡ true
      → is_exempt (get_actor_roles_for_swarm g swarm_id actor_id) actor_role ≡ false
      → transition o other swarm_id to_state actor_id actor_role reason ids override g
        ≡ (ok event_id, g')
      → contains
          (o.fingerprint warn "governance_transition" (swarm_id ∷ state_ref to_state ∷ []) swarm_id)
          (provided_fingerprints g ids)
        ≡ true
  transition-acknowledged other swarm_id to_state actor_id actor_role reason ids override event_id g
        g' watched n h =
      let (a, b) =
        settled_lem other swarm_id to_state actor_id actor_role reason ids override event_id g g' h
          watched n in
      rw a at b
