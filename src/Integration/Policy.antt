-- ===== src/Integration/Policy.antt =====
-- swarm/integration/policy.py: which provider may serve a request.
pub mod Eligibility
use acds.Prelude.{
  String, Bool, true, false, not, ◌&&◌, ◌||◌, Option, none, some, List, [], ◌∷◌, if◌then◌else◌,
  str_eq, contains, lookup,
}
use acds.Integration.Contracts.{CapabilityRequest}

-- `LOCAL_PROVIDERS`
unfoldable pub local_providers : List String
local_providers = "ollama" ∷ "apple_intelligence" ∷ []

-- `ENCRYPTED_PROVIDERS`
unfoldable pub encrypted_providers : List String
encrypted_providers = "apple_intelligence" ∷ []

-- `CAPABILITY_REGISTRY`
unfoldable pub capability_registry : List (String × List String)
capability_registry =
    ("text.generate", "ollama" ∷ "apple_intelligence" ∷ [])
    ∷ ("text.summarize", "ollama" ∷ "apple_intelligence" ∷ [])
    ∷ ("text.classify", "ollama" ∷ "apple_intelligence" ∷ [])
    ∷ ("speech.transcribe", "apple_intelligence" ∷ [])
    ∷ ("policy.evaluate", "ollama" ∷ "apple_intelligence" ∷ [])
    ∷ []

-- A constructor for each reason.
pub data Verdict : Type 0 where
  not_registered unknown_capability unsupported not_local not_encrypted all_passed : Verdict

pub record PolicyResult : Type 0 where
  pub allowed : Bool
  pub reason : Verdict
  pub checks_performed : List String

-- Some row lists the provider: it is in the union `known_providers`.
unfoldable pub is_known : String → List (String × List String) → Bool
unfolding contains
is_known provider_id [] = false
is_known provider_id ((capability, providers) ∷ rows) =
    contains provider_id providers || is_known provider_id rows

abbrev deny : Verdict → List String → PolicyResult
deny reason checks = record { allowed = false; reason = reason; checks_performed = checks }

-- The tests from the second on, for the providers that the registry lists.
unfoldable pub evaluate_supported : CapabilityRequest → String → Option (List String) → PolicyResult
unfolding contains local_providers encrypted_providers
evaluate_supported req provider_id none =
    deny unknown_capability ("provider_registered" ∷ "capability_supported" ∷ [])
evaluate_supported req provider_id (some supported) =
    if not (contains provider_id supported)
    then deny unsupported ("provider_registered" ∷ "capability_supported" ∷ [])
    else if req.constraints.local_only && not (contains provider_id local_providers)
    then deny not_local ("provider_registered" ∷ "capability_supported" ∷ "local_only" ∷ [])
    else if str_eq req.constraints.sensitivity "high"
        && not (contains provider_id encrypted_providers)
    then deny not_encrypted (
        "provider_registered" ∷ "capability_supported" ∷ "local_only" ∷ "sensitivity_encryption"
        ∷ [])
    else record {
      allowed = true;
      reason = all_passed;
      checks_performed =
          "provider_registered" ∷ "capability_supported" ∷ "local_only" ∷ "sensitivity_encryption"
          ∷ [];
    }

-- `DefaultPolicy.evaluate`
unfoldable pub evaluate : CapabilityRequest → String → PolicyResult
unfolding is_known capability_registry lookup evaluate_supported
evaluate req provider_id =
    if not (is_known provider_id capability_registry)
    then deny not_registered ("provider_registered" ∷ [])
    else evaluate_supported req provider_id (lookup req.capability capability_registry)
