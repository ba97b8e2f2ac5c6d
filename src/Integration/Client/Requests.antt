-- ===== src/Integration/Client/Requests.antt =====
-- swarm/integration/acds_client.py: a request, with its fallback from provider to provider.
use acds.Prelude.{
  ℕ, zero, suc, String, Bool, true, false, not, Option, none, some, List, [], ◌∷◌, ◌++◌, Result, ok,
  err, if◌then◌else◌, str_eq, contains, length, keep, lookup,
}
use acds.Prelude.States.{Exec, lift, gets, ◌>>=◌, ◌>>◌}
use acds.Integration.Contracts.{CapabilityRequest, CapabilityResponse}
use acds.Integration.Policy.{evaluate}
use acds.Integration.Retry.{
  Fault, empty_capability, no_process_id, exhausted, not_available, fallback_denied, out_of_fuel,
  RetryStrategy,
}
use acds.Integration.Client.Attempts.{
  Provider, InferenceResult, ClientState, execute_single, record_latency,
}
use acds.Integration.Client.Scoring.{get_capable_providers, select_provider}

-- What `_execute_with_fallback` returns, with `trace.fallback_chain`.
pub record Served : Type 0 where
  pub result : InferenceResult
  pub provider_id : String
  pub fallback_used : Bool
  pub latency_ms : ℕ
  pub tried : List String

-- `result is not None and result.success`
unfoldable pub succeeded : Option InferenceResult → Option InferenceResult
succeeded none = none
succeeded (some result) = if result.success then some result else none

-- `_build_fallback_chain`
unfoldable pub build_fallback_chain : String → List String → List String
unfolding keep contains
build_fallback_chain capability excluded =
    keep (λ provider_id. not (contains provider_id excluded)) (get_capable_providers capability)

-- `_validate_request`
unfoldable pub validate_request : CapabilityRequest → Result Fault (Unit {0})
validate_request req =
    if str_eq req.capability ""
    then err empty_capability
    else if str_eq req.context.process_id ""
    then err no_process_id
    else ok tt

module _ {W : Type 0} (providers : List (String × Provider W)) (strategy : RetryStrategy)
    (req : CapabilityRequest) where
  -- The rest of a round of the `while True`, whose next round is `again`.
  unfoldable pub approach :
      (String → Provider W → Bool → List String → Exec (ClientState W) Fault Served)
      → List String
      → String
      → Option (Provider W)
      → Exec (ClientState W) Fault Served
  approach again tried next_id none s = (err (not_available next_id), s)
  approach again tried next_id (some next_client) s =
      if not (evaluate req next_id).allowed
      then (err (fallback_denied next_id (evaluate req next_id).reason), s)
      else again next_id next_client true tried s

  unfoldable pub fall_back :
      (String → Provider W → Bool → List String → Exec (ClientState W) Fault Served)
      → List String
      → List String
      → Exec (ClientState W) Fault Served
  unfolding approach lookup
  fall_back again tried [] s = (err (exhausted req.capability tried), s)
  fall_back again tried (next_id ∷ chain) s =
      approach again tried next_id (lookup next_id providers) s

  unfoldable pub after_attempt :
      (String → Provider W → Bool → List String → Exec (ClientState W) Fault Served)
      → List String
      → String
      → Bool
      → ℕ
      → Option InferenceResult
      → Exec (ClientState W) Fault Served
  unfolding fall_back build_fallback_chain record_latency
  after_attempt again tried current_id fallback_used latency none s =
      fall_back again tried (build_fallback_chain req.capability tried) s
  after_attempt again tried current_id fallback_used latency (some result) s = (
    ok (record {
      result = result;
      provider_id = current_id;
      fallback_used = fallback_used;
      latency_ms = latency;
      tried = tried;
    }),
    record_latency current_id latency s,
  )

  -- The `while True`, on fuel.
  unfoldable pub fallback_loop :
      ℕ → String → Provider W → Bool → List String → Exec (ClientState W) Fault Served
  unfolding after_attempt execute_single succeeded
  fallback_loop zero current_id current_client fallback_used tried s = (err out_of_fuel, s)
  fallback_loop (suc fuel) current_id current_client fallback_used tried s =
      let ((result, latency), s') = execute_single req current_id current_client strategy s in
      after_attempt (fallback_loop fuel) (tried ++ current_id ∷ []) current_id fallback_used latency
        (succeeded result) s'

  -- `_execute_with_fallback`
  unfoldable pub execute_with_fallback : String → Provider W → Exec (ClientState W) Fault Served
  unfolding fallback_loop
  execute_with_fallback provider_id client =
      fallback_loop (length (get_capable_providers req.capability)) provider_id client false []

  unfoldable pub response_of : String → Served → CapabilityResponse
  response_of provider_id served = record {
    output = record { text = served.result.output; metadata = served.result.metadata };
    provider_id = served.provider_id;
    method_id = req.capability;
    latency_ms = served.latency_ms;
    decision_trace = record {
      candidates_evaluated = get_capable_providers req.capability;
      selected_provider = provider_id;
      selection_reason = "highest scoring eligible provider";
      policy_checks = (evaluate req served.provider_id).checks_performed;
      fallback_chain = served.tried;
    };
    fallback_used = served.fallback_used;
    request_id = req.request_id;
  }

  -- `request`
  unfoldable pub request : Exec (ClientState W) Fault CapabilityResponse
  unfolding validate_request select_provider execute_with_fallback response_of
  request = do
    lift (validate_request req)
    latency_history ← gets (λ (s : ClientState W). s.latency_history)
    choice ← lift (select_provider providers req latency_history)
    served ← execute_with_fallback choice.0 choice.1
    lift (ok (response_of choice.0 served))
