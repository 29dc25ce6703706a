-- ===== src/Automation/Retry.antt =====
-- app/automation/retry.py: repeated reads of the broker. The floating-point seconds of the policy
-- are milliseconds here; `random.uniform(0, d)` is a parameter. An operation is a function of the
-- number of its call, so that its outcome may change from one attempt to the next.
pub mod Attempts
use auto_invest_manager.Base.{
  ℕ, zero, suc, ◌+◌, ◌-◌, ◌*◌, ◌^◌, min, Bool, true, false, ◌||◌, Option, none, some, List, [], ◌∷◌,
  String, str_eq, ltb, ◌==◌, if◌then◌else◌, Result, ok, err, Error,
}

pub record RetryPolicy : Type 0 where
  pub max_attempts : ℕ
  pub base_delay : ℕ
  pub max_delay : ℕ
  pub jitter : Bool

-- A delay of zero counts as none.
abbrev pub positive : Option ℕ → Option ℕ
positive none = none
positive (some d) = if ltb 0 d then some d else none

-- `_retry_after_seconds`
abbrev pub retry_after : Error → Option ℕ
retry_after (Error.rate_limit d) = positive d
retry_after (Error.rpc code d) = positive d
retry_after _ = none

-- `isinstance(error, (BrokerTemporaryError, TimeoutError, ConnectionError, OSError))`
abbrev pub is_transient : Error → Bool
is_transient Error.broker_temporary = true
is_transient (Error.rate_limit d) = true
is_transient Error.timeout = true
is_transient Error.connection = true
is_transient Error.os = true
is_transient _ = false

-- `_error_code` is that name: only an error of the broker has a code.
abbrev pub has_code : Error → String → Bool
has_code (Error.rpc code after) name = str_eq code name
has_code _ name = false

unfoldable pub is_retryable : Error → Bool
is_retryable e =
    is_transient e
    || (has_code e "UNAVAILABLE"
        || (has_code e "DEADLINE_EXCEEDED" || has_code e "RESOURCE_EXHAUSTED"))

-- What the last attempt raises.
abbrev pub final_error : Error → Error
final_error e = if has_code e "RESOURCE_EXHAUSTED" then Error.rate_limit (retry_after e) else e

-- The wait after attempt number `attempt`, before the jitter.
abbrev pub delay_or : Option ℕ → ℕ → ℕ → ℕ
delay_or none maximum planned = planned
delay_or (some d) maximum planned = min maximum d

unfoldable pub backoff_delay : RetryPolicy → ℕ → Error → ℕ
backoff_delay policy attempt e =
    delay_or (retry_after e) policy.max_delay
      (min policy.max_delay (policy.base_delay * 2 ^ (attempt - 1)))

-- The result, the number of calls made, and the waits.
pub record Outcome (A : Type 0) : Type 0 where
  pub result : Result A
  pub calls : ℕ
  pub slept : List ℕ

module _ (policy : RetryPolicy) (uniform : ℕ → ℕ → ℕ) where
  abbrev pub pause : ℕ → Error → ℕ
  pause attempt e =
      let d = backoff_delay policy attempt e in if policy.jitter then uniform attempt d else d

  module _ {A : Type 0} (operation : ℕ → Result A) where
    abbrev pub after_pause : ℕ → Outcome A → Outcome A
    after_pause d rest = record {
      result = rest.result;
      calls = suc rest.calls;
      slept = d ∷ rest.slept;
    }

    abbrev pub stop : Result A → Outcome A
    stop r = record { result = r; calls = 1; slept = [] }

    -- What an attempt leads to, given what the further attempts would.
    abbrev pub settle : ℕ → Bool → Result A → Outcome A → Outcome A
    settle attempt last (ok a) rest = stop (ok a)
    settle attempt last (err e) rest =
        if is_retryable e
        then (if last then stop (err (final_error e)) else after_pause (pause attempt e) rest)
        else stop (err e)

    abbrev is_zero : ℕ → Bool
    is_zero zero = true
    is_zero (suc n) = false

    -- The `for` loop with `remaining` attempts to go, at attempt number `attempt`.
    pub retry_loop : ℕ → ℕ → Outcome A
    retry_loop zero attempt = record { result = err Error.runtime; calls = 0; slept = [] }
    retry_loop (suc remaining) attempt =
        let rest = retry_loop remaining (suc attempt) in
        settle attempt (is_zero remaining) (operation attempt) rest

    -- `RetryPolicy.run`
    unfoldable pub run_with_retry : Outcome A
    unfolding retry_loop
    run_with_retry = retry_loop policy.max_attempts 1
