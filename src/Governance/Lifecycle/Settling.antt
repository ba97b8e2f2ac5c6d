-- ===== src/Governance/Lifecycle/Settling.antt =====
-- swarm/governance: which actors are warned, and when their warnings let a transition pass.
use acds.Prelude.{
  ℕ, suc, String, ◌≡◌, refl, sym, ◌∙◌, ◌⊎◌, inl, inr, Bool, true, false, not, ◌||◌, none, List, [],
  ◌∷◌, ok, if◌then◌else◌, arith, eq_iff, str_eq, is_empty, all, contains, keep,
}
use acds.Prelude.States.{>>=-eq-ok}
use acds.Governance.Registry.{
  Severity, warn, block, Warning, Registry, Source, get_actor_roles_for_swarm,
}
use acds.Governance.Warnings.{
  Override, is_only, decision_of, severity_of, reduction_type, make_warning,
  evaluate_reduced_assurance_governance, persist_warning_records,
}
use acds.Governance.Tables.{state_ref}
use acds.Governance.Lifecycle.{
  provided_fingerprints, watched_states, evaluate_transition_warnings, settle_warns,
  settle_warnings,
}

-- All three roles of the governance are among them.
abbrev pub HoldsAll : List String → Type 0
HoldsAll roles =
    (contains "author" roles ≡ true)
    × (contains "reviewer" roles ≡ true)
    × (contains "publisher" roles ≡ true)

-- The actor has held no role, or only the one in which it acts.
abbrev pub is_exempt : List String → String → Bool
is_exempt prior role = is_empty prior || is_only role prior

only_lem :
    (k role : String) (prior : List String)
    → all (str_eq role) prior ≡ true
    → contains k (role ∷ prior) ≡ true
    → k ≡ role
unfolding all contains
only_lem k role [] a h = ground (arith, eq_iff k role)
only_lem k role (p ∷ prior) a h =
    ground (arith, eq_iff k role, eq_iff k p, eq_iff role p, only_lem k role prior)

two_roles : (role : String) → "author" ≡ role → "reviewer" ≡ role → ⊥
two_roles role x y = let z = (eq_iff "author" "reviewer").1 (x ∙ sym y) in cc

pub exempt-lem :
    (role : String) (prior : List String) → is_exempt prior role ≡ true → ¬ HoldsAll (role ∷ prior)
unfolding all
exempt-lem role [] e (a, r, p) =
    two_roles role (only_lem "author" role [] refl a) (only_lem "reviewer" role [] refl r)
exempt-lem role (q ∷ prior) e (a, r, p) =
    two_roles role (only_lem "author" role (q ∷ prior) e a)
      (only_lem "reviewer" role (q ∷ prior) e r)

pub severity_lem :
    (role : String) (prior : List String) → HoldsAll (role ∷ prior) → severity_of prior role ≡ block
unfolding severity_of contains
severity_lem role prior (a, r, p) = rw (a, r, p)

Severity-cases : (s : Severity) → (s ≡ warn) ⊎ (s ≡ block)
Severity-cases warn = inl refl
Severity-cases block = inr refl

pub provided_ticks :
    (g : Registry) (n : ℕ) (ids : List String)
    → provided_fingerprints (record g { ticks = n }) ids ≡ provided_fingerprints g ids
unfolding provided_fingerprints
provided_ticks g n [] = refl
provided_ticks g n (i ∷ ids) = rw (provided_ticks g n ids)

module _ (o : Source) where
  settle_warns-eq-ok :
      (swarm_id to_state actor_id actor_role : String) (override : Override)
      (warns missing : List Warning) (g g' : Registry) (u : Unit {0})
      → settle_warns o swarm_id to_state actor_id actor_role override warns missing g ≡ (ok u, g')
      → missing ≡ []
  unfolding settle_warns
  settle_warns-eq-ok swarm_id to_state actor_id actor_role override warns [] g g' u h = refl
  settle_warns-eq-ok swarm_id to_state actor_id actor_role override warns (m ∷ missing) g g' u h =
      let (_, g₁, _, x) =
        >>=-eq-ok (persist_warning_records o "deferred" (none, none) false (m ∷ missing)) _ g g' u
          h in
      absurd (cc x)

  pub settle-eq-ok :
      (swarm_id to_state actor_id actor_role : String) (ids : List String) (override : Override)
      (w : Warning) (g g' : Registry) (u : Unit {0})
      → settle_warnings o swarm_id to_state actor_id actor_role ids override (w ∷ []) g ≡ (ok u, g')
      → (w.severity ≡ warn) × (contains w.decision_fingerprint (provided_fingerprints g ids) ≡ true)
  unfolding settle_warnings keep
  settle-eq-ok swarm_id to_state actor_id actor_role ids override w g g' u h =
      elim (Severity-cases w.severity) [
        | inr b ↦
            let (_, g₁, _, x) =
              >>=-eq-ok
                (persist_warning_records o "blocked_by_system" (none, none) false
                  (record w { severity = block } ∷ []))
                _ g g' u (rw b at h) in
            absurd (cc x)
        | inl a ↦
            let x =
              settle_warns-eq-ok swarm_id to_state actor_id actor_role override
                (record w { severity = warn } ∷ [])
                (if not (contains w.decision_fingerprint (provided_fingerprints g ids))
                  then record w { severity = warn } ∷ []
                  else [])
                g g' u (rw a at h) in
            (a, missing_lem (contains w.decision_fingerprint (provided_fingerprints g ids)) x)
      ]
    where
      missing_lem :
          (b : Bool) → (if not b then record w { severity = warn } ∷ [] else []) ≡ [] → b ≡ true
      missing_lem true e = refl
      missing_lem false e = absurd (cc)

  -- The warning that is evaluated for an actor that is not exempt.
  abbrev pub warning_of : String → String → String → String → List String → Registry → Warning
  warning_of swarm_id to_state actor_id actor_role prior g =
      let severity = severity_of prior actor_role in
      let fp =
        o.fingerprint severity "governance_transition" (swarm_id ∷ state_ref to_state ∷ [])
          swarm_id in
      record {
        warning_id = o.warning_id fp (o.now g.ticks);
        swarm_id = swarm_id;
        warning_family = "reduced_assurance_governance";
        severity = severity;
        trigger_stage = "governance_transition";
        affected_artifact_refs = swarm_id ∷ state_ref to_state ∷ [];
        affected_swarm_ref = swarm_id;
        operator_decision = decision_of severity;
        override_reason_category = none;
        override_reason = none;
        decision_fingerprint = fp;
        actor_id = actor_id;
        actor_role = actor_role;
        acknowledged_at = none;
        notes = reduction_type prior actor_role;
      }

  pub evaluate-eq :
      (swarm_id to_state actor_id actor_role : String) (g : Registry)
      → contains to_state watched_states ≡ true
      → is_exempt (get_actor_roles_for_swarm g swarm_id actor_id) actor_role ≡ false
      → evaluate_transition_warnings o swarm_id actor_id actor_role to_state g ≡ (
        ok (
            warning_of swarm_id to_state actor_id actor_role
              (get_actor_roles_for_swarm g swarm_id actor_id)
              g
            ∷ []),
        record g { ticks = suc g.ticks },
      )
  unfolding evaluate_transition_warnings evaluate_reduced_assurance_governance make_warning
  evaluate-eq swarm_id to_state actor_id actor_role g e n = rw (e, n)
