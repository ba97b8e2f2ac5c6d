-- ===== src/Integration/Client/Calls.antt =====
-- swarm/integration/acds_client.py: whom a request calls, how often, and how it ends.
use acds.Prelude.{
  ℕ, zero, suc, ◌+◌, ◌*◌, ◌≤◌, ◌<◌, String, ◌≡◌, ◌≢◌, refl, sym, subst, inl, inr, Bool, true, false,
  not, Option, none, some, List, [], ◌∷◌, ◌++◌, arith, Result, ok, err, Result-cases, eq_refl,
  contains, length, lookup, Bool-cases,
}
use acds.Prelude.States.{Exec, lift, ◌>>=◌}
use acds.Integration.Contracts.{CapabilityRequest, CapabilityResponse}
use acds.Integration.Policy.{evaluate}
use acds.Integration.Policy.Eligibility.{IsEligible, evaluate-allowed_iff}
use acds.Integration.Retry.{Fault, no_providers, all_denied, out_of_fuel, RetryStrategy}
use acds.Integration.Client.Attempts.{Provider, InferenceResult, ClientState, execute_single}
use acds.Integration.Client.Scoring.{get_capable_providers, select_provider}
use acds.Integration.Client.Requests.{
  Served, succeeded, build_fallback_chain, approach, fall_back, after_attempt, fallback_loop,
  execute_with_fallback, response_of, validate_request, request,
}
use acds.Integration.Client.Traffic.{
  Within, Within-none, Within-trans, Within-mono, execute_single-Within,
}
use acds.Integration.Client.Turns.{calls_to, request-Spares}
use acds.Integration.Client.Chain.{keep-lt, length-keep_lt}
use acds.Integration.Client.Ranking.{IsBest, Selects, select_provider-Selects}

succeeded-success :
    (o : Option InferenceResult) (r : InferenceResult) → succeeded o ≡ some r → r.success ≡ true
unfolding succeeded
succeeded-success none r e = cc
succeeded-success (some result) r e = elim (Bool-cases result.success) [
  | inl y ↦ let same : result ≡ r = cc (rw y at e) in subst (λ x. x.success ≡ true) same y
  | inr n ↦ absurd (cc (rw n at e))
]

module _ {W : Type 0} (providers : List (String × Provider W)) (strategy : RetryStrategy)
    (req : CapabilityRequest) where
  -- The calls that one provider may take.
  abbrev share : ℕ
  share = strategy.max_retries + 1

  -- Only eligible providers were called since `s`, at most so often; what is served was a success
  -- of an eligible one, and no fault is for want of fuel.
  abbrev Concludes : ℕ → ClientState W → Result Fault Served × ClientState W → Type 0
  Concludes n s (ok served, s') =
      Within (IsEligible req) n s s'
      × IsEligible req served.provider_id
      × (served.result.success ≡ true)
  Concludes n s (err fault, s') = Within (IsEligible req) n s s' × (fault ≢ out_of_fuel)

  Concludes-after :
      (n m : ℕ) (s s' : ClientState W)
      → Within (IsEligible req) n s s'
      → (r : Result Fault Served × ClientState W) → Concludes m s' r
      → Concludes (n + m) s r
  Concludes-after n m s s' w (ok served, s'') c =
      (Within-trans (IsEligible req) n m s s' s'' w c.0, c.1, c.2)
  Concludes-after n m s s' w (err fault, s'') c =
      (Within-trans (IsEligible req) n m s s' s'' w c.0, c.1)

  module _ (again : String → Provider W → Bool → List String → Exec (ClientState W) Fault Served)
      (fuel n : ℕ)
      (ih : (id : String) (client : Provider W) (used : Bool) (tried : List String)
          (s : ClientState W)
        → IsEligible req id
        → length (build_fallback_chain req.capability (tried ++ id ∷ [])) < fuel
        → Concludes n s (again id client used tried s)) where
    approach-Concludes :
        (tried : List String) (next : String) (found : Option (Provider W)) (s : ClientState W)
        → length (build_fallback_chain req.capability (tried ++ next ∷ [])) < fuel
        → Concludes n s (approach providers strategy req again tried next found s)
    unfolding approach
    approach-Concludes tried next none s h = (Within-none _ n s s refl, λ e. cc)
    approach-Concludes tried next (some client) s h =
        elim (Bool-cases (evaluate req next).allowed) [
          | inl y ↦ rw y (ih next client true tried s ((evaluate-allowed_iff req next).0 y) h)
          | inr e ↦ rw e (Within-none _ n s s refl, λ e. cc)
        ]

    fall_back-Concludes :
        (tried chain : List String) (s : ClientState W)
        → build_fallback_chain req.capability tried ≡ chain
        → length (build_fallback_chain req.capability tried) < suc fuel
        → Concludes n s (fall_back providers strategy req again tried chain s)
    unfolding fall_back build_fallback_chain
    fall_back-Concludes tried [] s e h = (Within-none _ n s s refl, λ x. cc)
    fall_back-Concludes tried (next ∷ rest) s e h =
        let shorter = keep-lt tried next rest (get_capable_providers req.capability) e in
        approach-Concludes tried next (lookup next providers) s (omega arith)

    after_attempt-Concludes :
        (tried : List String) (id : String) (used : Bool) (latency : ℕ)
        (o found : Option InferenceResult) (s : ClientState W)
        → succeeded o ≡ found
        → IsEligible req id
        → length (build_fallback_chain req.capability tried) < suc fuel
        → Concludes n s (after_attempt providers strategy req again tried id used latency found s)
    unfolding after_attempt
    after_attempt-Concludes tried id used latency o none s e g h =
        fall_back-Concludes tried (build_fallback_chain req.capability tried) s refl h
    after_attempt-Concludes tried id used latency o (some result) s e g h =
        (Within-none _ n s _ refl, g, succeeded-success o result e)

  fallback_loop-Concludes :
      (fuel : ℕ) (id : String) (client : Provider W) (used : Bool) (tried : List String)
      (s : ClientState W)
      → IsEligible req id
      → length (build_fallback_chain req.capability (tried ++ id ∷ [])) < fuel
      → Concludes
          (fuel * share)
          s
          (fallback_loop providers strategy req fuel id client used tried s)
  unfolding fallback_loop
  fallback_loop-Concludes zero id client used tried s g h = absurd (omega arith)
  fallback_loop-Concludes (suc fuel) id client used tried s g h =
      let ((o, latency), s') = execute_single req id client strategy s in
      let w =
        Within-mono (λ p. p ≡ id) (IsEligible req) share share s s'
          (λ p e. subst (IsEligible req) (sym e) g) (omega arith)
          (execute_single-Within req id client strategy s) in
      let again = fallback_loop providers strategy req fuel in
      let result =
        after_attempt providers strategy req again (tried ++ id ∷ []) id used latency (succeeded o)
          s' in
      let rounds : share + fuel * share ≡ suc fuel * share = grind arith in
      subst (λ n. Concludes n s result) rounds
        (Concludes-after share (fuel * share) s s' w result (
          after_attempt-Concludes again fuel (fuel * share) (fallback_loop-Concludes fuel)
            (tried ++ id ∷ []) id used latency o (succeeded o) s' refl g h))

  -- Only eligible providers were called, in all at most so often, however the request ended; an answer comes from an eligible provider, and its trace names the best one as selected.
  abbrev pub Answers : ClientState W → Result Fault CapabilityResponse × ClientState W → Type 0
  Answers s (ok response, s') =
      Within (IsEligible req) (length (get_capable_providers req.capability) * share) s s'
      × IsEligible req response.provider_id
      × ((client : Provider W) × IsBest providers req s.latency_history
            (get_capable_providers req.capability)
            (response.decision_trace.selected_provider, client))
  Answers s (err fault, s') =
      Within (IsEligible req) (length (get_capable_providers req.capability) * share) s s'
      × (fault ≢ out_of_fuel)

  serve-Answers :
      (id : String) (client : Provider W) (s : ClientState W)
      → IsBest providers req s.latency_history (get_capable_providers req.capability) (id, client)
      → Answers s (
          (execute_with_fallback providers strategy req id client >>= λ served.
          lift (ok (response_of providers strategy req id served)))
            s)
  unfolding execute_with_fallback response_of
  serve-Answers id client s b =
      concluded (fallback_loop providers strategy req most id client false [] s) (
        fallback_loop-Concludes most id client false [] s b.eligible (
          length-keep_lt id (λ p. not (contains p (id ∷ []))) self
            (get_capable_providers req.capability) b.listed))
    where
      most : ℕ
      most = length (get_capable_providers req.capability)

      self : not (contains id (id ∷ [])) ≡ false
      self = rw (eq_refl id)

      concluded :
          (r : Result Fault Served × ClientState W)
          → Concludes (most * share) s r
          → Answers s
              (((λ _. r) >>= λ served. lift (ok (response_of providers strategy req id served))) s)
      concluded (ok served, s') c = (c.0, c.1, (client, b))
      concluded (err fault, s') c = c

  choose-Answers :
      (s : ClientState W) (choice : Result Fault (String × Provider W))
      → Selects providers req s.latency_history (get_capable_providers req.capability) choice
      → Answers s (
          (lift choice >>= λ c. execute_with_fallback providers strategy req c.0 c.1 >>= λ served.
          lift (ok (response_of providers strategy req c.0 served)))
            s)
  choose-Answers s (ok (id, client)) b = serve-Answers id client s b
  choose-Answers s (err (no_providers c)) b = (Within-none _ _ s s refl, λ e. cc)
  choose-Answers s (err (all_denied d)) b = (Within-none _ _ s s refl, λ e. cc)
  choose-Answers s (err fault) b = absurd b

  validate-ne : (fault : Fault) → validate_request req ≡ err fault → fault ≢ out_of_fuel
  unfolding validate_request
  validate-ne fault e x = ground arith

  -- A request, however it ends, has called only providers that the policy allows, each of them at most
  -- once and once more for each retry, and never loops for ever; its answer comes from a provider that
  -- the policy allows, and the provider that its trace names as selected is the best of those that may
  -- serve.
  pub request-Answers :
      (s : ClientState W)
      → Answers s (request providers strategy req s)
        × ((p : String)
            → calls_to p (request providers strategy req s).1.activity
              ≤ calls_to p s.activity + (strategy.max_retries + 1))
  unfolding request
  request-Answers s = (
    elim (Result-cases (validate_request req)) [
      | inl (u, e) ↦ rw e (
          choose-Answers s (select_provider providers req s.latency_history)
            (select_provider-Selects providers req s.latency_history))
      | inr (fault, e) ↦ rw e (Within-none _ _ s s refl, validate-ne fault e)
    ],
    λ p. (request-Spares providers strategy req s).at_most p,
  )
