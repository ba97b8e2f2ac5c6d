-- ===== src/Integration/Policy/Eligibility.antt =====
-- swarm/integration/policy.py: exactly which providers are allowed.
use acds.Prelude.{
  String, ◌≡◌, ◌↔◌, ◌⊎◌, inl, inr, Bool, true, false, not, ◌&&◌, some, List, [], ◌∷◌, arith, str_eq,
  contains, lookup, Bool-cases, Option-cases,
}
use acds.Integration.Contracts.{CapabilityRequest}
use acds.Integration.Policy.{
  local_providers, encrypted_providers, capability_registry, is_known, evaluate_supported, evaluate,
}

-- The registry lists the provider for the capability; it is local if that is asked for, and encrypts
-- if the sensitivity is high.
pub record IsEligible (req : CapabilityRequest) (provider_id : String) : Type 0 where
  pub supported : List String
  pub registered : lookup req.capability capability_registry ≡ some supported
  pub supports : contains provider_id supported ≡ true
  pub is_local :
      (req.constraints.local_only ≡ false) ⊎ (contains provider_id local_providers ≡ true)
  pub encrypts :
      (str_eq req.constraints.sensitivity "high" ≡ false)
      ⊎ (contains provider_id encrypted_providers ≡ true)

-- A provider that some capability lists is a known one.
known_of_listed :
    (capability provider_id : String) (supported : List String) (rows : List (String × List String))
    → lookup capability rows ≡ some supported
    → contains provider_id supported ≡ true
    → is_known provider_id rows ≡ true
unfolding lookup is_known
known_of_listed capability provider_id supported [] e c = absurd (cc)
known_of_listed capability provider_id supported ((k, providers) ∷ rows) e c =
    elim (Bool-cases (str_eq capability k)) [
      | inl y ↦ let same : providers ≡ supported = cc (rw y at e) in rw same (rw c)
      | inr n ↦
          let ih = known_of_listed capability provider_id supported rows (rw n at e) c in
          ground (arith, ih)
    ]

no_violation :
    (asked given : Bool) → (asked && not given) ≡ false → (asked ≡ false) ⊎ (given ≡ true)
no_violation asked given h = ground arith

violation_not :
    (asked given : Bool) → (asked ≡ false) ⊎ (given ≡ true) → (asked && not given) ≡ false
violation_not asked given h = ground arith

-- The policy allows a provider exactly when it is eligible: it supports the capability, is local
-- where only local ones may serve, and encrypts where the sensitivity is high.
pub evaluate-allowed_iff :
    (req : CapabilityRequest) (provider_id : String)
    → ((evaluate req provider_id).allowed ≡ true) ↔ IsEligible req provider_id
unfolding evaluate evaluate_supported
evaluate-allowed_iff req provider_id = (
  λ h. elim (Bool-cases (is_known provider_id capability_registry)) [
    | inr n ↦ absurd (cc (rw n at h))
    | inl k ↦ elim (Option-cases (lookup req.capability capability_registry)) [
      | inl e ↦ absurd (cc (rw (k, e) at h))
      | inr (supported, e) ↦ elim (Bool-cases (contains provider_id supported)) [
        | inr n ↦ absurd (cc (rw (k, e, n) at h))
        | inl c ↦
            elim (Bool-cases
              (req.constraints.local_only && not (contains provider_id local_providers))) [
                | inl y ↦ absurd (cc (rw (k, e, c, y) at h))
                | inr l ↦
                    elim (Bool-cases (
                      str_eq req.constraints.sensitivity "high"
                      && not (contains provider_id encrypted_providers))) [
                        | inl y ↦ absurd (cc (rw (k, e, c, l, y) at h))
                        | inr m ↦ record {
                          supported = supported;
                          registered = e;
                          supports = c;
                          is_local =
                              no_violation req.constraints.local_only
                                (contains provider_id local_providers) l;
                          encrypts =
                              no_violation (str_eq req.constraints.sensitivity "high")
                                (contains provider_id encrypted_providers) m;
                        }
                      ]
              ]
      ]
    ]
  ],
  λ x.
      let k =
        known_of_listed req.capability provider_id x.supported capability_registry x.registered
          x.supports in
      let l =
        violation_not req.constraints.local_only (contains provider_id local_providers)
          x.is_local in
      let m =
        violation_not (str_eq req.constraints.sensitivity "high")
          (contains provider_id encrypted_providers) x.encrypts in
      rw (k, x.registered, x.supports, l, m),
)
