-- ===== src/Integration/Retry.antt =====
-- swarm/integration/errors.py and retry.py: the errors of the client, and which are tried again.
use acds.Prelude.{ℕ, ◌*◌, ◌^◌, String, Bool, true, false, List, if◌then◌else◌, leb}
use acds.Integration.Policy.{Verdict}

-- The classes of errors.py.
pub data ErrorKind : Type 0 where
  capability_unavailable policy_denied provider_failed fallback_exhausted : ErrorKind
  contract_violation : ErrorKind

-- A constructor for each place that raises one; `out_of_fuel` is no error of the code.
pub data Fault : Type 0 where
  empty_capability no_process_id : Fault
  no_providers : String → Fault
  all_denied : List (String × Verdict) → Fault
  exhausted : String → List String → Fault
  not_available : String → Fault
  fallback_denied : String → Verdict → Fault
  failed_attempt : String → Fault
  out_of_fuel : Fault

unfoldable pub kind_of : Fault → ErrorKind
kind_of empty_capability = contract_violation
kind_of no_process_id = contract_violation
kind_of (no_providers _) = capability_unavailable
kind_of (all_denied _) = policy_denied
kind_of (exhausted _ _) = fallback_exhausted
kind_of (not_available _) = fallback_exhausted
kind_of (fallback_denied _ _) = policy_denied
kind_of (failed_attempt _) = provider_failed
kind_of out_of_fuel = fallback_exhausted

-- `FailurePropagator.is_terminal`
unfoldable pub is_terminal : ErrorKind → Bool
is_terminal policy_denied = true
is_terminal contract_violation = true
is_terminal capability_unavailable = false
is_terminal provider_failed = false
is_terminal fallback_exhausted = false

abbrev is_provider_failed : ErrorKind → Bool
is_provider_failed provider_failed = true
is_provider_failed capability_unavailable = false
is_provider_failed policy_denied = false
is_provider_failed fallback_exhausted = false
is_provider_failed contract_violation = false

abbrev is_unavailable : ErrorKind → Bool
is_unavailable capability_unavailable = true
is_unavailable provider_failed = false
is_unavailable policy_denied = false
is_unavailable fallback_exhausted = false
is_unavailable contract_violation = false

-- `FailurePropagator.is_retryable`
unfoldable pub is_retryable : ErrorKind → Bool
unfolding is_terminal
is_retryable error =
    if is_terminal error
    then false
    else if is_unavailable error
    then false
    else is_provider_failed error

pub record RetryStrategy : Type 0 where
  pub max_retries : ℕ
  pub backoff_base_ms : ℕ

-- `RetryStrategy.should_retry`
unfoldable pub should_retry : RetryStrategy → ℕ → ErrorKind → Bool
unfolding is_retryable
should_retry strategy attempt error =
    if leb strategy.max_retries attempt then false else is_retryable error

-- `RetryStrategy.delay_ms`
unfoldable pub delay_ms : RetryStrategy → ℕ → ℕ
delay_ms strategy attempt = strategy.backoff_base_ms * 2 ^ attempt
