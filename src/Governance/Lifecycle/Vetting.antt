-- ===== src/Governance/Lifecycle/Vetting.antt =====
-- swarm/governance/lifecycle.py over any sequence of transitions: what the states guarantee.
use acds.Prelude.{
  String, ◌≡◌, refl, sym, subst, ap, ◌∙◌, ◌⊎◌, inl, inr, true, Option, none, some, List, [], ◌∷◌,
  ◌++◌, Result, ok, err, if◌then◌else◌, eq_iff, str_eq, contains, lookup, Any, Bool-cases,
}
use acds.Governance.Registry.{Refusal, event_id_taken, Swarm, Event, Registry, Source}
use acds.Governance.Warnings.{Override}
use acds.Governance.Tables.{
  allowed_from, allowed_transitions, transition_roles, required_role, lookup_pair,
  transition_event_type, event_map,
}
use acds.Governance.Lifecycle.{transition}
use acds.Governance.Lifecycle.Roles.{allowed_ind, flatten, pairs_of, allowed-IsGoverned}
use acds.Governance.Lifecycle.Frame.{Grows}
use acds.Governance.Lifecycle.Moves.{IsPermitted, IsMove, transition-IsMove, transition-refused}

-- The event that a reviewer approved the swarm.
abbrev pub IsApproval : String → Event → Type 0
IsApproval swarm_id e =
    (e.swarm_id ≡ swarm_id) × (e.event_type ≡ "swarm_approved") × (e.actor_role ≡ some "reviewer")

-- The states that only an approved swarm can be in.
unfoldable pub vetted_states : List String
vetted_states = "approved" ∷ "enabled" ∷ "paused" ∷ []

-- Every swarm in such a state was approved by a reviewer.
abbrev pub AreVetted : Registry → Type 0
AreVetted g =
    (k : String) (swarm : Swarm)
    → lookup k g.swarms ≡ some swarm
    → contains swarm.lifecycle_status vetted_states ≡ true
    → Any (IsApproval k) g.events

Any-append_left : (P : Event → Type 0) (xs ys : List Event) → Any P xs → Any P (xs ++ ys)
Any-append_left P [] ys h = elim h [ ]
Any-append_left P (x ∷ xs) ys (inl h) = inl h
Any-append_left P (x ∷ xs) ys (inr h) = inr (Any-append_left P xs ys h)

Any-append_last : (P : Event → Type 0) (xs : List Event) (y : Event) → P y → Any P (xs ++ y ∷ [])
Any-append_last P [] y h = inl h
Any-append_last P (x ∷ xs) y h = inr (Any-append_last P xs y h)

-- A transition into a vetted state starts in one, or is an approval by a reviewer.
vetted-enters :
    (from to : String)
    → contains to (allowed_from from) ≡ true
    → contains to vetted_states ≡ true
    → (contains from vetted_states ≡ true)
      ⊎ (((other : String → String → String)
            → transition_event_type other from to ≡ "swarm_approved")
          × (required_role from to ≡ some "reviewer"))
unfolding flatten pairs_of allowed_transitions contains vetted_states required_role transition_roles
    lookup_pair transition_event_type event_map
vetted-enters from to =
    allowed_ind
      (λ from to.
        contains to vetted_states ≡ true
        → (contains from vetted_states ≡ true)
          ⊎ (((other : String → String → String)
                → transition_event_type other from to ≡ "swarm_approved")
              × (required_role from to ≡ some "reviewer")))
      from to
      (
        λ h. absurd (cc),
        (
          λ h. absurd (cc),
          (
            λ h. inr (λ o. refl, refl),
            (
              λ h. absurd (cc),
              (
                λ h. absurd (cc),
                (
                  λ h. inl refl,
                  (
                    λ h. absurd (cc),
                    (
                      λ h. absurd (cc),
                      (λ h. inl refl, (λ h. absurd (cc), (λ h. inl refl, (λ h. absurd (cc), tt)))),
                    ),
                  ),
                ),
              ),
            ),
          ),
        ),
      )

Grows-AreVetted : (g g' : Registry) → Grows g g' → AreVetted g → AreVetted g'
Grows-AreVetted g g' grows v k swarm e s = rw grows.events_grow (
    Any-append_left (IsApproval k) g.events grows.added
      (v k swarm (ap (λ x. lookup k x) (sym grows.same_swarms) ∙ e) s))

-- The result is the exception of a taken id.
abbrev pub IsLost : Result Refusal String → Type 0
IsLost (ok event_id) = ⊥
IsLost (err f) = (id : String) × (f ≡ event_id_taken id)

abbrev status_of : Option Swarm → String
status_of none = ""
status_of (some x) = x.lifecycle_status

module _ (o : Source) (other : String → String → String) where
  recorded_lem :
      (swarm_id to_state actor_id actor_role : String) (reason : Option String) (event_id : String)
      (g g' : Registry)
      (m : IsMove o other swarm_id to_state actor_id actor_role reason event_id g g')
      (P : Event → Type 0)
      → Any P g.events
      → Any P g'.events
  recorded_lem swarm_id to_state actor_id actor_role reason event_id g g' m P h = rw m.recorded (
      Any-append_left P m.before.events _
        (rw m.grows.events_grow (Any-append_left P g.events m.grows.added h)))

  move-approves :
      (swarm_id to_state actor_id actor_role : String) (reason : Option String) (event_id : String)
      (g g' : Registry)
      (m : IsMove o other swarm_id to_state actor_id actor_role reason event_id g g')
      → AreVetted g
      → contains to_state vetted_states ≡ true
      → Any (IsApproval swarm_id) g'.events
  move-approves swarm_id to_state actor_id actor_role reason event_id g g' m v s =
      elim (vetted-enters m.swarm.lifecycle_status to_state m.permitted.0 s) [
        | inl already ↦
            recorded_lem swarm_id to_state actor_id actor_role reason event_id g g' m
              (IsApproval swarm_id) (v swarm_id m.swarm m.was already)
        | inr (named, role) ↦ rw m.recorded (
            Any-append_last (IsApproval swarm_id) m.before.events _
              (refl, named other, sym m.permitted.1 ∙ role))
      ]

  Move-AreVetted :
      (swarm_id to_state actor_id actor_role : String) (reason : Option String) (event_id : String)
      (g g' : Registry)
      → IsMove o other swarm_id to_state actor_id actor_role reason event_id g g'
      → AreVetted g
      → AreVetted g'
  Move-AreVetted swarm_id to_state actor_id actor_role reason event_id g g' m v k swarm e s =
      elim (Bool-cases (str_eq k swarm_id)) [
        | inl y ↦
            let now = sym e ∙ (rw y at (m.statuses k)) in
            let status = ap (λ x. status_of x) now in
            subst (λ x. Any (IsApproval x) g'.events) (sym ((eq_iff k swarm_id).0 y))
              (move-approves swarm_id to_state actor_id actor_role reason event_id g g' m v
                (rw status at s))
        | inr n ↦
            recorded_lem swarm_id to_state actor_id actor_role reason event_id g g' m (IsApproval k)
              (v k swarm (sym (rw n at (m.statuses k)) ∙ e) s)
      ]

  -- The registries that any sequence of transitions leads to, refused ones included.
  pub data Reach (g₀ : Registry) : Registry → Type 0 where
    start : Reach g₀ g₀
    next :
        {g : Registry} (swarm_id to_state actor_id actor_role : String) (reason : Option String)
        (warning_ids : List String) (override : Override)
        → Reach g₀ g
        → Reach g₀
            (transition o other swarm_id to_state actor_id actor_role reason warning_ids override
              g).1

  -- No transition on the way raised because the id of an event was taken.
  abbrev pub NoneLost : {g₀ g : Registry} → Reach g₀ g → Type 0
  NoneLost start = Unit
  NoneLost (next {g = g} swarm_id to_state actor_id actor_role reason ids override r) =
      NoneLost r
      × ¬ IsLost (transition o other swarm_id to_state actor_id actor_role reason ids override g).0

  step-AreVetted :
      (swarm_id to_state actor_id actor_role : String) (reason : Option String) (ids : List String)
      (override : Override) (g : Registry)
      → AreVetted g
      → (x : Result Refusal String × Registry)
      → transition o other swarm_id to_state actor_id actor_role reason ids override g ≡ x
      → ¬ IsLost x.0
      → AreVetted x.1
  step-AreVetted swarm_id to_state actor_id actor_role reason ids override g v (ok id, g') e kept =
      Move-AreVetted swarm_id to_state actor_id actor_role reason id g g'
        (transition-IsMove o other swarm_id to_state actor_id actor_role reason ids override id g g'
          e)
        v
  step-AreVetted swarm_id to_state actor_id actor_role reason ids override g v (err f, g') e kept =
      elim (transition-refused o other swarm_id to_state actor_id actor_role reason ids override f g
        g' e) [
          | inl grows ↦ Grows-AreVetted g g' grows v
          | inr u ↦ absurd (kept (u.event_id, u.fault))
        ]

  -- Whatever transitions are tried, in whatever order, by whomever, refused ones included, if none of
  -- them raises because the id of an event is taken: a swarm that is approved, enabled or paused has
  -- in its events the approval of a reviewer, if that was so at the start.
  pub Reach-AreVetted :
      (g₀ g : Registry) → AreVetted g₀ → (r : Reach g₀ g) → NoneLost r → AreVetted g
  Reach-AreVetted g₀ g v start kept = v
  Reach-AreVetted g₀ g' v (next {g = g} swarm_id to_state actor_id actor_role reason ids override r)
        kept =
      step-AreVetted swarm_id to_state actor_id actor_role reason ids override g
        (Reach-AreVetted g₀ g v r kept.0) _ refl kept.1

  -- No permitted change of the status of one swarm touches a revoked one.
  revoked_kept :
      (k swarm_id to_state actor_role : String) (g g' : Registry) (swarm was : Swarm)
      → lookup k g.swarms ≡ some swarm
      → swarm.lifecycle_status ≡ "revoked"
      → lookup swarm_id g.swarms ≡ some was
      → IsPermitted was.lifecycle_status to_state actor_role
      → lookup k g'.swarms ≡ (
          if str_eq k swarm_id
          then some (record was { lifecycle_status = to_state })
          else lookup k g.swarms)
      → lookup k g'.swarms ≡ some swarm
  revoked_kept k swarm_id to_state actor_role g g' swarm was e dead found permitted statuses =
      elim (Bool-cases (str_eq k swarm_id)) [
        | inr n ↦ (rw n at statuses) ∙ e
        | inl y ↦
            let (_, _, _, alive) = allowed-IsGoverned was.lifecycle_status to_state permitted.0 in
            let same =
              sym found ∙ ap (λ i. lookup i g.swarms) (sym ((eq_iff k swarm_id).0 y)) ∙ e in
            let status : was.lifecycle_status ≡ "revoked" = ap (λ x. status_of x) same ∙ dead in
            absurd (cc (rw status at alive))
      ]

  revoked_step :
      (k swarm_id to_state actor_id actor_role : String) (reason : Option String)
      (ids : List String) (override : Override) (g : Registry) (swarm : Swarm)
      → lookup k g.swarms ≡ some swarm
      → swarm.lifecycle_status ≡ "revoked"
      → (x : Result Refusal String × Registry)
      → transition o other swarm_id to_state actor_id actor_role reason ids override g ≡ x
      → lookup k x.1.swarms ≡ some swarm
  revoked_step k swarm_id to_state actor_id actor_role reason ids override g swarm e dead
        (ok id, g') h =
      let m =
        transition-IsMove o other swarm_id to_state actor_id actor_role reason ids override id g g'
          h in
      revoked_kept k swarm_id to_state actor_role g g' swarm m.swarm e dead m.was m.permitted
        (m.statuses k)
  revoked_step k swarm_id to_state actor_id actor_role reason ids override g swarm e dead
        (err f, g') h =
      elim (transition-refused o other swarm_id to_state actor_id actor_role reason ids override f g
        g' h) [
          | inl grows ↦ ap (λ x. lookup k x) grows.same_swarms ∙ e
          | inr u ↦
              revoked_kept k swarm_id to_state actor_role g g' swarm u.swarm e dead u.was
                u.permitted (u.statuses k)
        ]

  -- Revocation is for good: no sequence of transitions changes a swarm that is revoked.
  pub Reach-revoked :
      (g₀ g : Registry) (k : String) (swarm : Swarm)
      → lookup k g₀.swarms ≡ some swarm
      → swarm.lifecycle_status ≡ "revoked"
      → Reach g₀ g
      → lookup k g.swarms ≡ some swarm
  Reach-revoked g₀ g k swarm e dead start = e
  Reach-revoked g₀ g' k swarm e dead
        (next {g = g} swarm_id to_state actor_id actor_role reason ids override r) =
      revoked_step k swarm_id to_state actor_id actor_role reason ids override g swarm
        (Reach-revoked g₀ g k swarm e dead r) dead _ refl
