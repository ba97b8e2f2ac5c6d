-- ===== src/Integration/Client/Recording.antt =====
-- swarm/integration/acds_client.py: what a request changes of the latency histories.
use acds.Prelude.{
  ℕ, zero, suc, ◌+◌, String, ◌≡◌, refl, subst, ◌∙◌, inl, inr, Bool, true, false, Option, none, some,
  List, [], ◌∷◌, ◌++◌, Result, ok, err, Result-cases, Bool-cases, length, lookup, insert,
}
use acds.Prelude.States.{Exec, lift, ◌>>=◌}
use acds.Integration.Contracts.{CapabilityRequest, CapabilityResponse}
use acds.Integration.Policy.{evaluate}
use acds.Integration.Retry.{Fault, RetryStrategy}
use acds.Integration.Client.Attempts.{
  Provider, InferenceResult, ClientState, Next, stop, again, settle, sleep_before, call_provider,
  Attempted, resume, attempts, execute_single, with_latency, record_latency,
}
use acds.Integration.Client.Scoring.{get_capable_providers, select_provider}
use acds.Integration.Client.Requests.{
  Served, succeeded, build_fallback_chain, approach, fall_back, after_attempt, fallback_loop,
  execute_with_fallback, response_of, validate_request, request,
}

module _ {W : Type 0} where
  resume-history :
      (rest : Option InferenceResult → ℕ → ClientState W → Attempted W)
      → ((l : Option InferenceResult) (t : ℕ) (u : ClientState W)
          → (rest l t u).1.latency_history ≡ u.latency_history)
      → (next : Next) (s : ClientState W)
      → (resume rest next s).1.latency_history ≡ s.latency_history
  unfolding resume
  resume-history rest e (stop result latency) s = refl
  resume-history rest e (again result latency) s = e result latency s

  module _ (req : CapabilityRequest) (provider_id : String) (client : Provider W)
      (strategy : RetryStrategy) where
    sleep-history :
        (attempt : ℕ) (s : ClientState W)
        → (sleep_before strategy attempt s).latency_history ≡ s.latency_history
    unfolding sleep_before
    sleep-history zero s = refl
    sleep-history (suc attempt) s = refl

    attempts-history :
        (rounds attempt : ℕ) (last_result : Option InferenceResult) (total : ℕ) (s : ClientState W)
        → (attempts req provider_id client strategy rounds attempt last_result total
            s).1.latency_history
          ≡ s.latency_history
    unfolding attempts call_provider
    attempts-history zero attempt last_result total s = refl
    attempts-history (suc rounds) attempt last_result total s =
        let (generated, s') =
          call_provider req provider_id client (sleep_before strategy attempt s) in
        resume-history (attempts req provider_id client strategy rounds (suc attempt))
          (λ l t u. attempts-history rounds (suc attempt) l t u)
          (settle strategy attempt last_result total generated) s'
        ∙ sleep-history attempt s

    execute_single-history :
        (s : ClientState W)
        → (execute_single req provider_id client strategy s).1.latency_history ≡ s.latency_history
    unfolding execute_single
    execute_single-history s = attempts-history (strategy.max_retries + 1) 0 none 0 s

-- `d[provider_id]` after a latency.
abbrev pub recorded : String → ℕ → List (String × List ℕ) → List (String × List ℕ)
recorded provider_id latency_ms h =
    insert provider_id (with_latency (lookup provider_id h) latency_ms) h

module _ {W : Type 0} (providers : List (String × Provider W)) (strategy : RetryStrategy)
    (req : CapabilityRequest) where
  -- The latency of what is served joins the histories; a fault leaves them as they were.
  abbrev Records : List (String × List ℕ) → Result Fault Served × ClientState W → Type 0
  Records h (ok served, s') = s'.latency_history ≡ recorded served.provider_id served.latency_ms h
  Records h (err fault, s') = s'.latency_history ≡ h

  module _ (again : String → Provider W → Bool → List String → Exec (ClientState W) Fault Served)
      (ih : (id : String) (client : Provider W) (used : Bool) (tried : List String)
          (s : ClientState W)
        → Records s.latency_history (again id client used tried s)) where
    approach-Records :
        (tried : List String) (next : String) (found : Option (Provider W)) (s : ClientState W)
        → Records s.latency_history (approach providers strategy req again tried next found s)
    unfolding approach
    approach-Records tried next none s = refl
    approach-Records tried next (some client) s = elim (Bool-cases (evaluate req next).allowed) [
      | inl y ↦ rw y (ih next client true tried s)
      | inr e ↦ rw e refl
    ]

    fall_back-Records :
        (tried chain : List String) (s : ClientState W)
        → Records s.latency_history (fall_back providers strategy req again tried chain s)
    unfolding fall_back
    fall_back-Records tried [] s = refl
    fall_back-Records tried (next ∷ rest) s = approach-Records tried next (lookup next providers) s

    after_attempt-Records :
        (tried : List String) (id : String) (used : Bool) (latency : ℕ)
        (found : Option InferenceResult) (s : ClientState W)
        → Records s.latency_history
            (after_attempt providers strategy req again tried id used latency found s)
    unfolding after_attempt record_latency
    after_attempt-Records tried id used latency none s =
        fall_back-Records tried (build_fallback_chain req.capability tried) s
    after_attempt-Records tried id used latency (some result) s = refl

  fallback_loop-Records :
      (fuel : ℕ) (id : String) (client : Provider W) (used : Bool) (tried : List String)
      (s : ClientState W)
      → Records s.latency_history (fallback_loop providers strategy req fuel id client used tried s)
  unfolding fallback_loop
  fallback_loop-Records zero id client used tried s = refl
  fallback_loop-Records (suc fuel) id client used tried s =
      let ((o, latency), s') = execute_single req id client strategy s in
      let again = fallback_loop providers strategy req fuel in
      let result =
        after_attempt providers strategy req again (tried ++ id ∷ []) id used latency (succeeded o)
          s' in
      subst (λ h. Records h result) (execute_single-history req id client strategy s)
        (after_attempt-Records again (fallback_loop-Records fuel) (tried ++ id ∷ []) id used latency
          (succeeded o) s')

  -- The same of an answered request and of one that failed.
  abbrev pub Remembers :
      List (String × List ℕ) → Result Fault CapabilityResponse × ClientState W → Type 0
  Remembers h (ok response, s') =
      s'.latency_history ≡ recorded response.provider_id response.latency_ms h
  Remembers h (err fault, s') = s'.latency_history ≡ h

  serve-Remembers :
      (id : String) (client : Provider W) (s : ClientState W)
      → Remembers s.latency_history (
          (execute_with_fallback providers strategy req id client >>= λ served.
          lift (ok (response_of providers strategy req id served)))
            s)
  unfolding execute_with_fallback response_of
  serve-Remembers id client s =
      concluded (fallback_loop providers strategy req most id client false [] s)
        (fallback_loop-Records most id client false [] s)
    where
      most : ℕ
      most = length (get_capable_providers req.capability)

      concluded :
          (r : Result Fault Served × ClientState W)
          → Records s.latency_history r
          → Remembers s.latency_history
              (((λ _. r) >>= λ served. lift (ok (response_of providers strategy req id served))) s)
      concluded (ok served, s') e = e
      concluded (err fault, s') e = e

  choose-Remembers :
      (s : ClientState W) (choice : Result Fault (String × Provider W))
      → Remembers s.latency_history (
          (lift choice >>= λ c. execute_with_fallback providers strategy req c.0 c.1 >>= λ served.
          lift (ok (response_of providers strategy req c.0 served)))
            s)
  choose-Remembers s (ok (id, client)) = serve-Remembers id client s
  choose-Remembers s (err fault) = refl

  pub request-Remembers :
      (s : ClientState W) → Remembers s.latency_history (request providers strategy req s)
  unfolding request
  request-Remembers s = elim (Result-cases (validate_request req)) [
    | inl (u, e) ↦ rw e (choose-Remembers s (select_provider providers req s.latency_history))
    | inr (fault, e) ↦ rw e refl
  ]
