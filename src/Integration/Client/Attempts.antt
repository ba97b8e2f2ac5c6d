-- ===== src/Integration/Client/Attempts.antt =====
-- swarm/integration/acds_client.py: the client's state, and the attempts on one provider.
use acds.Prelude.{
  ℕ, zero, suc, ◌+◌, String, Bool, Option, none, some, List, [], ◌∷◌, ◌++◌, if◌then◌else◌, ltb,
  str_eq, length, lookup, insert,
}
use acds.Integration.Contracts.{Fields, CapabilityRequest}
use acds.Integration.Retry.{failed_attempt, kind_of, RetryStrategy, should_retry, delay_ms}

-- Without the names of the engine and the model.
pub record InferenceResult : Type 0 where
  pub success : Bool
  pub output : String
  pub latency_ms : ℕ
  pub error : Option String
  pub metadata : Fields

-- How a call of `generate` ends: an exception and the milliseconds that the client measured, or a
-- result.
pub data Generated : Type 0 where
  raised : String → ℕ → Generated
  returned : InferenceResult → Generated

-- A provider's `generate`, of a prompt, a system text and a temperature (`none` is 0.3), in a world
-- that it may change.
abbrev pub Provider : Type 0 → Type 0
Provider W = String → String → Option String → W → Generated × W

-- What the client does to the outside: a call of a provider, or a sleep in milliseconds.
pub data Activity : Type 0 where
  called : String → Activity
  slept : ℕ → Activity

-- `_latency_history`, the world of the providers, and what was done to it, the latest first.
pub record ClientState (W : Type 0) : Type 0 where
  pub latency_history : List (String × List ℕ)
  pub world : W
  pub activity : List Activity

-- `input.get(key, "")`
abbrev text_or_empty : Option String → String
text_or_empty none = ""
text_or_empty (some text) = text

-- `result.error or "unknown error"`
abbrev error_text : Option String → String
error_text none = "unknown error"
error_text (some text) = if str_eq text "" then "unknown error" else text

-- What a call of `generate` leaves the loop with: to return, or to try again.
pub data Next : Type 0 where
  stop again : Option InferenceResult → ℕ → Next

-- The rest of a round after `generate`; an exception does not reset `last_result`.
unfoldable pub settle : RetryStrategy → ℕ → Option InferenceResult → ℕ → Generated → Next
unfolding should_retry kind_of
settle strategy attempt last_result total_latency (raised message latency) =
    if should_retry strategy attempt (kind_of (failed_attempt message))
    then again last_result (total_latency + latency)
    else stop none (total_latency + latency)
settle strategy attempt last_result total_latency (returned result) =
    if result.success
    then stop (some result) (total_latency + result.latency_ms)
    else if should_retry strategy attempt (kind_of (failed_attempt (error_text result.error)))
    then again (some result) (total_latency + result.latency_ms)
    else stop (some result) (total_latency + result.latency_ms)

-- What `_execute_single` returns, with the state after it.
abbrev pub Attempted : Type 0 → Type 0
Attempted W = (Option InferenceResult × ℕ) × ClientState W

-- `xs[-20:]`
unfoldable pub last_20 : List ℕ → List ℕ
last_20 [] = []
last_20 (x ∷ xs) = let rest = last_20 xs in if ltb 20 (length (x ∷ xs)) then rest else x ∷ xs

unfoldable pub with_latency : Option (List ℕ) → ℕ → List ℕ
unfolding last_20
with_latency none latency_ms = latency_ms ∷ []
with_latency (some history) latency_ms = last_20 (history ++ latency_ms ∷ [])

module _ {W : Type 0} where
  -- `time.sleep`, before every attempt but the first.
  unfoldable pub sleep_before : RetryStrategy → ℕ → ClientState W → ClientState W
  unfolding delay_ms
  sleep_before strategy zero s = s
  sleep_before strategy (suc attempt) s = record s {
    activity = slept (delay_ms strategy attempt) ∷ s.activity;
  }

  unfoldable pub call_provider :
      CapabilityRequest → String → Provider W → ClientState W → Generated × ClientState W
  unfolding lookup
  call_provider req provider_id client s =
      let (generated, world) =
        client (text_or_empty (lookup "prompt" req.input))
          (text_or_empty (lookup "system" req.input)) (lookup "temperature" req.input) s.world in
      (generated, record s { world = world; activity = called provider_id ∷ s.activity })

  unfoldable pub resume :
      (Option InferenceResult → ℕ → ClientState W → Attempted W)
      → Next
      → ClientState W
      → Attempted W
  resume rest (stop result latency) s = ((result, latency), s)
  resume rest (again result latency) s = rest result latency s

  -- The loop of `_execute_single`: the rounds left, and the number of the attempt.
  unfoldable pub attempts :
      CapabilityRequest
      → String
      → Provider W
      → RetryStrategy
      → ℕ
      → ℕ
      → Option InferenceResult
      → ℕ
      → ClientState W
      → Attempted W
  unfolding sleep_before call_provider settle resume
  attempts req provider_id client strategy zero attempt last_result total_latency s =
      ((last_result, total_latency), s)
  attempts req provider_id client strategy (suc rounds) attempt last_result total_latency s =
      let (generated, s') =
        call_provider req provider_id client (sleep_before strategy attempt s) in
      resume (attempts req provider_id client strategy rounds (suc attempt))
        (settle strategy attempt last_result total_latency generated) s'

  -- `_execute_single`
  unfoldable pub execute_single :
      CapabilityRequest → String → Provider W → RetryStrategy → ClientState W → Attempted W
  unfolding attempts
  execute_single req provider_id client strategy s =
      attempts req provider_id client strategy (strategy.max_retries + 1) 0 none 0 s

  -- `_record_latency`
  unfoldable pub record_latency : String → ℕ → ClientState W → ClientState W
  unfolding with_latency lookup insert
  record_latency provider_id latency_ms s = record s {
    latency_history =
        insert provider_id (with_latency (lookup provider_id s.latency_history) latency_ms)
          s.latency_history;
  }
