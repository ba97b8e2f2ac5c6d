-- ===== src/Governance/Lifecycle/Frame.antt =====
-- swarm/governance: what the handling of warnings leaves alone.
use acds.Prelude.{
  String, ◌≡◌, refl, sym, ap, ◌∙◌, inl, inr, Bool, true, false, not, ◌||◌, Option, none, some, List,
  [], ◌∷◌, ◌++◌, Result, ok, err, if◌then◌else◌, str_eq, is_empty, All, contains, keep, has_key,
  Bool-cases,
}
use acds.Prelude.States.{lift, gets, ◌>>=◌, continue}
use acds.Governance.Registry.{
  Refusal, Severity, Event, Warning, ReducedEvent, Registry, Source, Governed, tick, id_taken,
  record_event, create_governance_warning_record, create_reduced_assurance_governance_event,
}
use acds.Governance.Warnings.{
  Override, is_only, mirror, warning_event, make_warning, evaluate_reduced_assurance_governance,
  persist_loop, persist_warning_records, build_reduced_assurance_event,
}
use acds.Governance.Tables.{state_ref}
use acds.Governance.Lifecycle.{
  provided_fingerprints, in_list, reduced_recorded, watched_states, is_block,
  evaluate_transition_warnings, record_reduced, record_all, settle_warns, settle_warnings,
}

-- The swarms are the same, and the events that were added hold no role.
pub record Grows (g g' : Registry) : Type 0 where
  pub same_swarms : g'.swarms ≡ g.swarms
  pub added : List Event
  pub events_grow : g'.events ≡ g.events ++ added
  pub roleless : All (λ (e : Event). e.actor_role ≡ none) added

append-nil : (xs : List Event) → xs ++ [] ≡ xs
append-nil [] = refl
append-nil (x ∷ xs) = ap (λ ys. x ∷ ys) (append-nil xs)

append_assoc : (xs ys zs : List Event) → (xs ++ ys) ++ zs ≡ xs ++ (ys ++ zs)
append_assoc [] ys zs = refl
append_assoc (x ∷ xs) ys zs = ap (λ us. x ∷ us) (append_assoc xs ys zs)

All-append : (P : Event → Type 0) (xs ys : List Event) → All P xs → All P ys → All P (xs ++ ys)
All-append P [] ys h k = k
All-append P (x ∷ xs) ys h k = (h.0, All-append P xs ys h.1 k)

pub Grows-same : (g g' : Registry) → g'.swarms ≡ g.swarms → g'.events ≡ g.events → Grows g g'
Grows-same g g' a b = record {
  same_swarms = a;
  added = [];
  events_grow = b ∙ sym (append-nil g.events);
  roleless = tt;
}

pub Grows-trans : (g₁ g₂ g₃ : Registry) → Grows g₁ g₂ → Grows g₂ g₃ → Grows g₁ g₃
Grows-trans g₁ g₂ g₃ a b = record {
  same_swarms = b.same_swarms ∙ a.same_swarms;
  added = a.added ++ b.added;
  events_grow =
      b.events_grow
      ∙ ap (λ es. es ++ b.added) a.events_grow
      ∙ append_assoc g₁.events a.added b.added;
  roleless = All-append _ a.added b.added a.roleless b.roleless;
}

-- Whether it returns or raises, the computation only grows the registry.
pub record Keeps {A : Type 0} (g : Registry) (r : Result Refusal A × Registry) : Type 0 where
  pub grows : Grows g r.1

abbrev pub IsFramed : {A : Type 0} → Governed A → Type 0
IsFramed m = (g : Registry) → Keeps g (m g)

module _ {A B : Type 0} where
  pub bind-IsFramed :
      (m : Governed A) (f : A → Governed B)
      → IsFramed m
      → ((a : A) → IsFramed (f a))
      → IsFramed (m >>= f)
  bind-IsFramed m f h k g = after (m g) (h g)
    where
      after : (r : Result Refusal A × Registry) → Keeps g r → Keeps g (continue r.0 f r.1)
      after (ok a, g') x = record { grows = Grows-trans g g' _ x.grows (k a g').grows }
      after (err e, g') x = record { grows = x.grows }

module _ {A : Type 0} where
  pub lift-IsFramed : (r : Result Refusal A) → IsFramed (lift {A = A} r)
  lift-IsFramed r g = record { grows = Grows-same g g refl refl }

  if-IsFramed :
      (b : Bool) (m n : Governed A) → IsFramed m → IsFramed n → IsFramed (if b then m else n)
  if-IsFramed true m n h k = h
  if-IsFramed false m n h k = k

tick-IsFramed : IsFramed tick
tick-IsFramed g = record { grows = Grows-same g _ refl refl }

module _ (o : Source) where
  -- An event with no role only grows the registry.
  record_event-IsFramed :
      (row : String → Event)
      → ((id : String) → (row id).actor_role ≡ none)
      → IsFramed (record_event o row)
  unfolding record_event
  record_event-IsFramed row h g = elim (Bool-cases (id_taken (o.new_id g.ticks) g.events)) [
    | inl y ↦ rw y (record { grows = Grows-same g _ refl refl })
    | inr n ↦ rw n (record {
      grows = record {
        same_swarms = refl;
        added = row (o.new_id g.ticks) ∷ [];
        events_grow = refl;
        roleless = (h (o.new_id g.ticks), tt);
      };
    })
  ]

  warning-IsFramed : (w : Warning) → IsFramed (create_governance_warning_record w)
  unfolding create_governance_warning_record
  warning-IsFramed w g = elim (Bool-cases (has_key w.warning_id g.warnings)) [
    | inl e ↦ rw e (record { grows = Grows-same g _ refl refl })
    | inr n ↦ rw n (record { grows = Grows-same g _ refl refl })
  ]

  reduced-IsFramed : (e : ReducedEvent) → IsFramed (create_reduced_assurance_governance_event e)
  unfolding create_reduced_assurance_governance_event
  reduced-IsFramed e g = elim (Bool-cases (has_key e.event_id g.reduced)) [
    | inl y ↦ rw y (record { grows = Grows-same g _ refl refl })
    | inr n ↦ rw n (record { grows = Grows-same g _ refl refl })
  ]

  make_warning-IsFramed :
      (severity : Severity) (stage : String) (refs : List String)
      (swarm_id actor_id role notes : String)
      → IsFramed (make_warning o severity stage refs swarm_id actor_id role notes)
  unfolding make_warning
  make_warning-IsFramed severity stage refs swarm_id actor_id role notes =
      bind-IsFramed tick _ tick-IsFramed λ n. lift-IsFramed _

  evaluate_governance-IsFramed :
      (prior : List String) (role stage actor_id swarm_id : String) (refs : List String)
      → IsFramed (evaluate_reduced_assurance_governance o prior role stage actor_id swarm_id refs)
  unfolding evaluate_reduced_assurance_governance
  evaluate_governance-IsFramed prior role stage actor_id swarm_id refs =
      if-IsFramed (is_empty prior || is_only role prior) (lift (ok [])) _ (lift-IsFramed _) (
        bind-IsFramed _ _ (make_warning-IsFramed _ stage refs swarm_id actor_id role _)
          λ w. lift-IsFramed _)

  pub evaluate-IsFramed :
      (swarm_id actor_id actor_role to_state : String)
      → IsFramed (evaluate_transition_warnings o swarm_id actor_id actor_role to_state)
  unfolding evaluate_transition_warnings
  evaluate-IsFramed swarm_id actor_id actor_role to_state =
      if-IsFramed (not (contains to_state watched_states)) (lift (ok [])) _ (lift-IsFramed _) (
        bind-IsFramed (gets _) _ (λ g. record { grows = Grows-same g g refl refl })
          λ prior.
            evaluate_governance-IsFramed prior actor_role "governance_transition" actor_id swarm_id
              (swarm_id ∷ state_ref to_state ∷ []))

  mirror-IsFramed : (b : Bool) (w : Warning) → IsFramed (mirror o b w)
  mirror-IsFramed true w = lift-IsFramed _
  mirror-IsFramed false w =
      bind-IsFramed (record_event o (warning_event w)) _
        (record_event-IsFramed (warning_event w) λ id. refl) λ id. lift-IsFramed _

  persist_loop-IsFramed :
      (decision : String) (override : Override) (at : Option String) (ws : List Warning)
      → IsFramed (persist_loop o decision override at ws)
  unfolding persist_loop
  persist_loop-IsFramed decision override at [] = lift-IsFramed _
  persist_loop-IsFramed decision override at (w ∷ ws) =
      bind-IsFramed (create_governance_warning_record _) _ (warning-IsFramed _) λ id.
        bind-IsFramed (mirror o (str_eq w.swarm_id "") _) _
          (mirror-IsFramed (str_eq w.swarm_id "") _)
          λ _.
            bind-IsFramed (persist_loop o decision override at ws) _
              (persist_loop-IsFramed decision override at ws) λ rest. lift-IsFramed _

  pub persist-IsFramed :
      (decision : String) (override : Override) (acknowledged : Bool) (ws : List Warning)
      → IsFramed (persist_warning_records o decision override acknowledged ws)
  unfolding persist_warning_records
  persist-IsFramed decision override false ws = persist_loop-IsFramed decision override none ws
  persist-IsFramed decision override true ws =
      bind-IsFramed tick _ tick-IsFramed
        λ n. persist_loop-IsFramed decision override (some (o.now n)) ws

  record_reduced-IsFramed :
      (swarm_id to actor_id role : String) (w : Warning)
      → IsFramed (record_reduced o swarm_id to actor_id role w)
  unfolding record_reduced build_reduced_assurance_event
  record_reduced-IsFramed swarm_id to actor_id role w =
      bind-IsFramed (build_reduced_assurance_event o w _ actor_id role swarm_id) _
        (bind-IsFramed tick _ tick-IsFramed λ n. lift-IsFramed _)
        λ event.
          bind-IsFramed (create_reduced_assurance_governance_event event) _ (reduced-IsFramed event)
            λ id.
              bind-IsFramed (record_event o (reduced_recorded swarm_id actor_id id)) _
                (record_event-IsFramed (reduced_recorded swarm_id actor_id id) λ i. refl)
                λ _. lift-IsFramed (ok tt)

  record_all-IsFramed :
      (swarm_id to actor_id role : String) (ws : List Warning)
      → IsFramed (record_all o swarm_id to actor_id role ws)
  unfolding record_all
  record_all-IsFramed swarm_id to actor_id role [] = lift-IsFramed _
  record_all-IsFramed swarm_id to actor_id role (w ∷ ws) =
      bind-IsFramed (record_reduced o swarm_id to actor_id role w) _
        (record_reduced-IsFramed swarm_id to actor_id role w)
        λ _. record_all-IsFramed swarm_id to actor_id role ws

  settle_warns-IsFramed :
      (swarm_id to actor_id role : String) (override : Override) (warns missing : List Warning)
      → IsFramed (settle_warns o swarm_id to actor_id role override warns missing)
  unfolding settle_warns
  settle_warns-IsFramed swarm_id to actor_id role override warns missing =
      if-IsFramed (is_empty missing) _ _
        (bind-IsFramed (persist_warning_records o "acknowledged_and_proceeded" override true warns)
          _ (persist-IsFramed "acknowledged_and_proceeded" override true warns)
          λ ws. record_all-IsFramed swarm_id to actor_id role ws)
        (bind-IsFramed (persist_warning_records o "deferred" (none, none) false missing) _
          (persist-IsFramed "deferred" (none, none) false missing) λ _. lift-IsFramed _)

  pub settle-IsFramed :
      (swarm_id to actor_id role : String) (ids : List String) (override : Override)
      (ws : List Warning)
      → IsFramed (settle_warnings o swarm_id to actor_id role ids override ws)
  unfolding settle_warnings
  settle-IsFramed swarm_id to actor_id role ids override ws =
      if-IsFramed (not (is_empty (keep is_block ws))) _ _
        (bind-IsFramed
          (persist_warning_records o "blocked_by_system" (none, none) false (keep is_block ws)) _
          (persist-IsFramed "blocked_by_system" (none, none) false (keep is_block ws))
          λ _. lift-IsFramed _)
        (if-IsFramed (is_empty (keep (λ w. not (is_block w)) ws)) (lift (ok tt)) _ (lift-IsFramed _)
          (bind-IsFramed (gets (λ g. provided_fingerprints g ids)) _
            (λ g. record { grows = Grows-same g g refl refl })
            λ provided.
              settle_warns-IsFramed swarm_id to actor_id role override
                (keep (λ w. not (is_block w)) ws)
                (keep (λ w. not (in_list provided w)) (keep (λ w. not (is_block w)) ws))))
