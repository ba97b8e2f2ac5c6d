-- ===== src/Integration/Client/Scoring.antt =====
-- swarm/integration/acds_client.py: the score of each provider, and the choice of the best one.
use acds.Prelude.{
  ℕ, ◌+◌, ◌-◌, ◌*◌, ◌/◌, String, Bool, false, not, ◌&&◌, Option, none, some, List, [], ◌∷◌, Result,
  ok, err, if◌then◌else◌, ltb, leb, str_eq, opt_eq, length, lookup,
}
use acds.Integration.Contracts.{CapabilityRequest}
use acds.Integration.Policy.{Verdict, capability_registry, evaluate}
use acds.Integration.Retry.{Fault, no_providers, all_denied, not_available}
use acds.Integration.Client.Attempts.{Provider}

unfoldable pub sum : List ℕ → ℕ
sum [] = 0
sum (x ∷ xs) = x + sum xs

-- `_PROVIDER_META.get(pid, {}).get("priority", 5)`
unfoldable pub priority_of : String → ℕ
priority_of provider_id =
    if str_eq provider_id "ollama"
    then 1
    else if str_eq provider_id "apple_intelligence"
    then 2
    else 5

-- `max_latency_ms and avg_latency > max_latency_ms`, the average being `sum(history) / len(history)`.
unfoldable pub too_slow : Option ℕ → List ℕ → Bool
unfolding sum
too_slow none history = false
too_slow (some limit) history = ltb 0 limit && ltb (limit * length history) (sum history)

-- The history's part of the score; a score before it is over 30, so `-` does not stop at 0.
unfoldable pub with_history : Option ℕ → ℕ → Option (List ℕ) → ℕ
unfolding too_slow sum
with_history limit score none = score
with_history limit score (some []) = score
with_history limit score (some (x ∷ xs)) =
    if too_slow limit (x ∷ xs)
    then score - 30
    else score + (20 - sum (x ∷ xs) / (length (x ∷ xs) * 100))

unfoldable pub score_of : CapabilityRequest → List (String × List ℕ) → String → ℕ
unfolding with_history priority_of lookup
score_of req latency_history provider_id =
    with_history req.constraints.max_latency_ms
      (50
        + (if opt_eq req.constraints.preferred_provider (some provider_id) then 20 else 0)
        + (10 - priority_of provider_id))
      (lookup provider_id latency_history)

-- `_get_capable_providers`
abbrev or_nil : Option (List String) → List String
or_nil none = []
or_nil (some providers) = providers

unfoldable pub get_capable_providers : String → List String
unfolding lookup capability_registry
get_capable_providers capability = or_nil (lookup capability capability_registry)

-- `scored.sort(key=..., reverse=True)`, which keeps the order of equal scores.
unfoldable pub insert_score : ℕ × String → List (ℕ × String) → List (ℕ × String)
insert_score x [] = x ∷ []
insert_score x (y ∷ ys) = if leb y.0 x.0 then x ∷ y ∷ ys else y ∷ insert_score x ys

unfoldable pub sort_scores : List (ℕ × String) → List (ℕ × String)
unfolding insert_score
sort_scores [] = []
sort_scores (x ∷ xs) = insert_score x (sort_scores xs)

module _ {W : Type 0} (providers : List (String × Provider W)) (req : CapabilityRequest)
    (latency_history : List (String × List ℕ)) where
  -- One round of the loop over the candidates, for `scored` and `policy_denials`.
  unfoldable pub consider :
      String
      → Option (Provider W)
      → List (ℕ × String) × List (String × Verdict)
      → List (ℕ × String) × List (String × Verdict)
  consider provider_id none (scored, denials) = (scored, denials)
  consider provider_id (some client) (scored, denials) =
      if not (evaluate req provider_id).allowed
      then (scored, (provider_id, (evaluate req provider_id).reason) ∷ denials)
      else ((score_of req latency_history provider_id, provider_id) ∷ scored, denials)

  unfoldable pub score_all : List String → List (ℕ × String) × List (String × Verdict)
  unfolding consider lookup
  score_all [] = ([], [])
  score_all (provider_id ∷ candidates) =
      consider provider_id (lookup provider_id providers) (score_all candidates)

  -- `self._providers[best_id]`; every scored provider is there.
  unfoldable pub with_client : String → Option (Provider W) → Result Fault (String × Provider W)
  with_client best_id none = err (not_available best_id)
  with_client best_id (some client) = ok (best_id, client)

  unfoldable pub best :
      List (ℕ × String) → List (String × Verdict) → Result Fault (String × Provider W)
  unfolding with_client lookup
  best [] denials = err (all_denied denials)
  best ((score, best_id) ∷ others) denials = with_client best_id (lookup best_id providers)

  unfoldable pub select_among : List String → Result Fault (String × Provider W)
  unfolding best score_all sort_scores
  select_among [] = err (no_providers req.capability)
  select_among (candidate ∷ candidates) =
      let (scored, denials) = score_all (candidate ∷ candidates) in
      best (sort_scores scored) denials

  -- `_select_provider`
  unfoldable pub select_provider : Result Fault (String × Provider W)
  unfolding select_among get_capable_providers
  select_provider = select_among (get_capable_providers req.capability)
