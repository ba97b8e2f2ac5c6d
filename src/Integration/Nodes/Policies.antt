-- ===== src/Integration/Nodes/Policies.antt =====
-- swarm/integration/execution_pipeline.py: when a policy node lets the graph go on.
use acds.Prelude.{
  ℕ, String, Text, ◌≡◌, ◌↔◌, ◌⊎◌, refl, sym, ◌∙◌, subst, inl, inr, true, false, List, arith, Result,
  ok, err, ok-injective, Any, any_iff, text_eq, text_eq_iff, codes, contains, Bool-cases,
}
use acds.Integration.Contracts.{Fields, ExecutionContext, CapabilityRequest, CapabilityResponse}
use acds.Integration.Policy.{local_providers}
use acds.Integration.Retry.{Fault}
use acds.Integration.Client.Attempts.{Provider, ClientState}
use acds.Integration.Client.Requests.{request}
use acds.Integration.Client.Calls.{Answers, request-Answers}
use acds.Integration.Nodes.Lineage.{PipelineState, Document}
use acds.Integration.Nodes.{
  Workspace, PolicyNodeConfig, local_constraints, default_strategy, verdicts, ask_client,
  is_allowed, policy_input, after_policy, execute_policy_node,
}

module _ {W : Type 0} (providers : List (String × Provider W)) (fresh : ℕ → String)
    (hash_data : Document → String) (lower strip : Text → Text) (workspace : Workspace)
    (config : PolicyNodeConfig) (node_input : Fields) (context : ExecutionContext)
    (s : PipelineState W) where
  -- What the node asks the client.
  abbrev pub policy_request : CapabilityRequest
  policy_request = record {
    capability = config.policy_capability;
    input = policy_input providers fresh hash_data lower strip workspace config node_input;
    constraints = local_constraints;
    context = context;
    request_id = fresh s.issued;
  }

  -- The client answered, by a local provider, with one of the verdicts that allow.
  pub record IsApproved : Type 0 where
    pub response : CapabilityResponse
    pub answered : (request providers default_strategy policy_request s.client).0 ≡ ok response
    pub by_local : contains response.provider_id local_providers ≡ true
    pub verdict : Any (λ v. lower (strip (codes response.output.text)) ≡ v) verdicts

  -- A provider that answers a policy node is local.
  Answers-local :
      (r : Result Fault CapabilityResponse × ClientState W) (response : CapabilityResponse)
      → r.0 ≡ ok response
      → Answers providers default_strategy policy_request s.client r
      → contains response.provider_id local_providers ≡ true
  unfolding local_constraints
  Answers-local (ok answer, s') response e a =
      let same = ok-injective answer response e in
      subst (λ (x : CapabilityResponse). contains x.provider_id local_providers ≡ true) same
        (elim a.1.is_local [ inl off ↦ absurd (cc) | inr l ↦ l ])
  Answers-local (err fault, s') response e a = absurd (cc)

  is_allowed_iff :
      (text : String)
      → (is_allowed providers fresh hash_data lower strip workspace text ≡ true)
        ↔ Any (λ v. lower (strip (codes text)) ≡ v) verdicts
  unfolding is_allowed
  is_allowed_iff text =
      any_iff (text_eq (lower (strip (codes text)))) (λ v. lower (strip (codes text)) ≡ v)
        (λ v. text_eq_iff (lower (strip (codes text))) v) verdicts

  after_policy_iff :
      (r : Result Fault CapabilityResponse)
      → (request providers default_strategy policy_request s.client).0 ≡ r
      → (s' : PipelineState W)
      → ((after_policy providers fresh hash_data lower strip workspace config node_input context r
            s').0
          ≡ true)
        ↔ ((config.block_on_deny ≡ false) ⊎ IsApproved)
  unfolding after_policy
  after_policy_iff (err fault) e s' =
      (λ h. inl (ground arith), λ h. elim h [ inl off ↦ rw off | inr x ↦ absurd (cc (x.answered)) ])
  after_policy_iff (ok response) e s' = (
    λ h.
        elim (Bool-cases
          (is_allowed providers fresh hash_data lower strip workspace response.output.text)) [
            | inl y ↦ inr (record {
              response = response;
              answered = e;
              by_local =
                  Answers-local (request providers default_strategy policy_request s.client)
                    response e
                    (request-Answers providers default_strategy policy_request s.client).0;
              verdict = (is_allowed_iff response.output.text).0 y;
            })
            | inr n ↦ inl (ground arith)
          ],
    λ h. elim h [
      | inl off ↦ ground arith
      | inr x ↦
          let same : x.response ≡ response =
            ok-injective x.response response (sym x.answered ∙ e) in
          let y = (is_allowed_iff response.output.text).1 (
            subst
              (λ (z : CapabilityResponse).
                Any (λ v. lower (strip (codes z.output.text)) ≡ v) verdicts)
              same x.verdict) in
          rw y
    ],
  )

  -- A policy node lets the graph go on exactly when it is advisory, or a local provider answered
  -- with a verdict that allows: with blocking on, an error of the client stops the graph.
  pub execute_policy_node_iff :
      ((execute_policy_node providers fresh hash_data lower strip workspace config node_input
          context s).0
        ≡ true)
      ↔ ((config.block_on_deny ≡ false) ⊎ IsApproved)
  unfolding execute_policy_node ask_client
  execute_policy_node_iff =
      after_policy_iff (request providers default_strategy policy_request s.client).0 refl _
