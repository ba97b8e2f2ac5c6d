-- ===== src/ArgusHold/Policy.antt =====
-- swarm/argus_hold/policy_engine.py: which commands are allowed, by their side effects.
use acds.Prelude.{
  ℕ, ◌≤◌, ◌≡◌, ◌≢◌, ◌↔◌, ◌⊎◌, refl, inl, inr, Bool, true, false, ◌&&◌, List, [], ◌∷◌, arith,
  if◌then◌else◌, ltb, is_empty,
}
use acds.ArgusHold.Models.{
  SideEffectLevel, read_only, controlled_generation, local_mutation, external_action, privileged,
  Config, PolicyDecision, privileged_deny, privilege_ceiling, external_no_hosts, default_allow,
}

-- `_LEVEL_ORDER`
unfoldable pub level_order : SideEffectLevel → ℕ
level_order read_only = 1
level_order controlled_generation = 2
level_order local_mutation = 3
level_order external_action = 4
level_order privileged = 5

abbrev pub is_privileged : SideEffectLevel → Bool
is_privileged read_only = false
is_privileged controlled_generation = false
is_privileged local_mutation = false
is_privileged external_action = false
is_privileged privileged = true

abbrev pub is_external : SideEffectLevel → Bool
is_external read_only = false
is_external controlled_generation = false
is_external local_mutation = false
is_external external_action = true
is_external privileged = false

-- `PolicyEngine.evaluate`, of the envelope's level.
unfoldable pub evaluate_level : Config → SideEffectLevel → PolicyDecision
unfolding level_order
evaluate_level config level =
    if is_privileged level
    then record { allowed = false; matched_rule = privileged_deny }
    else if ltb config.max_privilege_level (level_order level)
    then record { allowed = false; matched_rule = privilege_ceiling }
    else if is_external level && is_empty config.allowed_hosts
    then record { allowed = false; matched_rule = external_no_hosts }
    else record { allowed = true; matched_rule = default_allow }

-- Not privileged, at most the configured level, and with hosts to go to if external.
pub record IsPermitted (config : Config) (level : SideEffectLevel) : Type 0 where
  pub unprivileged : level ≢ privileged
  pub below_ceiling : level_order level ≤ config.max_privilege_level
  pub has_hosts : (level ≢ external_action) ⊎ (config.allowed_hosts ≢ [])

is_privileged_iff : (level : SideEffectLevel) → (is_privileged level ≡ false) ↔ (level ≢ privileged)
is_privileged_iff read_only = (λ h e. cc, λ h. refl)
is_privileged_iff controlled_generation = (λ h e. cc, λ h. refl)
is_privileged_iff local_mutation = (λ h e. cc, λ h. refl)
is_privileged_iff external_action = (λ h e. cc, λ h. refl)
is_privileged_iff privileged = (λ h e. cc, λ h. absurd (h refl))

is_external_iff :
    (level : SideEffectLevel) → (is_external level ≡ false) ↔ (level ≢ external_action)
is_external_iff read_only = (λ h e. cc, λ h. refl)
is_external_iff controlled_generation = (λ h e. cc, λ h. refl)
is_external_iff local_mutation = (λ h e. cc, λ h. refl)
is_external_iff external_action = (λ h e. cc, λ h. absurd (h refl))
is_external_iff privileged = (λ h e. cc, λ h. refl)

pub is_empty_iff {ℓ} : {A : Type ℓ} (l : List A) → (is_empty l ≡ false) ↔ (l ≢ [])
is_empty_iff [] = (λ h e. cc, λ h. absurd (h refl))
is_empty_iff (x ∷ l) = (λ h e. cc, λ h. refl)

no_hosts_iff :
    (external empty : Bool) → ((external && empty) ≡ false) ↔ ((external ≡ false) ⊎ (empty ≡ false))
no_hosts_iff external empty = ground arith

-- A command is allowed exactly when it is not privileged, its level is at most the configured one,
-- and hosts are configured if it acts on the outside.
pub evaluate_level-allowed_iff :
    (config : Config) (level : SideEffectLevel)
    → ((evaluate_level config level).allowed ≡ true) ↔ IsPermitted config level
unfolding evaluate_level
evaluate_level-allowed_iff config level = (
  λ h.
      let p : is_privileged level ≡ false = ground arith in
      let le : level_order level ≤ config.max_privilege_level = ground arith in
      let e : (is_external level && is_empty config.allowed_hosts) ≡ false = ground arith in
      record {
        unprivileged = (is_privileged_iff level).0 p;
        below_ceiling = le;
        has_hosts = elim ((no_hosts_iff _ _).0 e) [
          | inl x ↦ inl ((is_external_iff level).0 x)
          | inr x ↦ inr ((is_empty_iff config.allowed_hosts).0 x)
        ];
      },
  λ h.
      let p = (is_privileged_iff level).1 h.unprivileged in
      let le = h.below_ceiling in
      let e : (is_external level && is_empty config.allowed_hosts) ≡ false =
        (no_hosts_iff _ _).1 (elim h.has_hosts [
          | inl x ↦ inl ((is_external_iff level).1 x)
          | inr x ↦ inr ((is_empty_iff config.allowed_hosts).1 x)
        ]) in
      ground arith,
)
