-- ===== src/Governance/Lifecycle/Roles.antt =====
-- swarm/governance/lifecycle.py: the tables of transitions, roles and events agree.
use acds.Prelude.{
  String, ◌≡◌, refl, sym, subst, inl, inr, true, false, some, List, [], ◌∷◌, ◌++◌, All, eq_iff,
  str_eq, contains, lookup, Bool-cases,
}
use acds.Governance.Tables.{
  lifecycle_states, allowed_from, listed, allowed_transitions, transition_roles, event_map,
  lookup_pair, required_role, transition_event_type,
}

unfoldable pub pairs_of : String → List String → List (String × String)
pairs_of from [] = []
pairs_of from (to ∷ states) = (from, to) ∷ pairs_of from states

unfoldable pub flatten : List (String × List String) → List (String × String)
unfolding pairs_of
flatten [] = []
flatten ((from, states) ∷ table) = pairs_of from states ++ flatten table

All-append_left :
    (Q : String × String → Type 0) (xs ys : List (String × String)) → All Q (xs ++ ys) → All Q xs
All-append_left Q [] ys h = tt
All-append_left Q (x ∷ xs) ys h = (h.0, All-append_left Q xs ys h.1)

All-append_right :
    (Q : String × String → Type 0) (xs ys : List (String × String)) → All Q (xs ++ ys) → All Q ys
All-append_right Q [] ys h = h
All-append_right Q (x ∷ xs) ys h = All-append_right Q xs ys h.1

module _ (P : String → String → Type 0) where
  abbrev At : String × String → Type 0
  At p = P p.0 p.1

  row_lem :
      (from to : String) (states : List String)
      → All At (pairs_of from states)
      → contains to states ≡ true
      → P from to
  unfolding contains pairs_of
  row_lem from to [] h e = absurd (cc)
  row_lem from to (b ∷ states) h e = elim (Bool-cases (str_eq to b)) [
    | inl y ↦ subst (P from) (sym ((eq_iff to b).0 y)) h.0
    | inr n ↦ row_lem from to states h.1 (rw n at e)
  ]

  table_lem :
      (from to : String) (table : List (String × List String))
      → All At (flatten table)
      → contains to (listed (lookup from table)) ≡ true
      → P from to
  unfolding flatten lookup contains
  table_lem from to [] h e = absurd (cc)
  table_lem from to ((a, states) ∷ table) h e = elim (Bool-cases (str_eq from a)) [
    | inl y ↦
        subst (λ x. P x to) (sym ((eq_iff from a).0 y))
          (row_lem a to states (All-append_left At (pairs_of a states) (flatten table) h)
            (rw y at e))
    | inr n ↦
        table_lem from to table (All-append_right At (pairs_of a states) (flatten table) h)
          (rw n at e)
  ]

  -- What holds of each of the twelve pairs holds of every transition that is allowed.
  pub allowed_ind :
      (from to : String)
      → All At (flatten allowed_transitions)
      → contains to (allowed_from from) ≡ true
      → P from to
  unfolding allowed_from
  allowed_ind from to = table_lem from to allowed_transitions

-- Every allowed transition leads to a lifecycle state, has a role that it requires, has a row in the
-- table of event types, and does not leave "revoked".
pub allowed-IsGoverned :
    (from to : String)
    → contains to (allowed_from from) ≡ true
    → (contains to lifecycle_states ≡ true)
      × ((role : String) × (required_role from to ≡ some role) × (str_eq role "" ≡ false))
      × ((event_type : String) × ((other : String → String → String)
            → transition_event_type other from to ≡ event_type))
      × (str_eq from "revoked" ≡ false)
unfolding flatten pairs_of allowed_transitions contains lifecycle_states required_role
    transition_roles lookup_pair transition_event_type event_map
allowed-IsGoverned from to =
    allowed_ind
      (λ from to.
        (contains to lifecycle_states ≡ true)
        × ((role : String) × (required_role from to ≡ some role) × (str_eq role "" ≡ false))
        × ((event_type : String) × ((other : String → String → String)
              → transition_event_type other from to ≡ event_type))
        × (str_eq from "revoked" ≡ false))
      from to
      (
        (refl, ("author", refl, refl), ("swarm_submitted_for_review", λ other. refl), refl),
        (
          (refl, ("publisher", refl, refl), ("swarm_revoked", λ other. refl), refl),
          (
            (refl, ("reviewer", refl, refl), ("swarm_approved", λ other. refl), refl),
            (
              (refl, ("reviewer", refl, refl), ("swarm_rejected", λ other. refl), refl),
              (
                (refl, ("reviewer", refl, refl), ("swarm_returned_to_draft", λ other. refl), refl),
                (
                  (refl, ("publisher", refl, refl), ("swarm_activated", λ other. refl), refl),
                  (
                    (refl, ("publisher", refl, refl), ("swarm_revoked", λ other. refl), refl),
                    (
                      (
                        refl,
                        ("author", refl, refl),
                        ("swarm_returned_to_draft", λ other. refl),
                        refl,
                      ),
                      (
                        (refl, ("publisher", refl, refl), ("swarm_paused", λ other. refl), refl),
                        (
                          (refl, ("publisher", refl, refl), ("swarm_revoked", λ other. refl), refl),
                          (
                            (
                              refl,
                              ("publisher", refl, refl),
                              ("swarm_reactivated", λ other. refl),
                              refl,
                            ),
                            (
                              (
                                refl,
                                ("publisher", refl, refl),
                                ("swarm_revoked", λ other. refl),
                                refl,
                              ),
                              tt,
                            ),
                          ),
                        ),
                      ),
                    ),
                  ),
                ),
              ),
            ),
          ),
        ),
      )
