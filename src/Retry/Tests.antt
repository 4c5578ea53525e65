-- ===== src/Retry/Tests.antt =====
-- Runs of the retry code, and its theorems at concrete inputs.
use lumen_horizon.Prelude.{
  ℕ, zero, suc, ◌≡◌, ◌*◌, ◌^◌, refl, Bool, true, false, [], ◌∷◌, arith, some, none, Result, ok, err,
  min,
}
use lumen_horizon.Retry.Delay.{
  RetryConfig, delay_for_attempt, as_millis, from_millis, delay_exponent, delay-eq-backoff,
}
use lumen_horizon.Retry.History.{IsHistory}
use lumen_horizon.Retry.Send.{
  Reply, response, returned, panicked, is_retryable, is_retryable_status, send_with_retry, reply_to,
  send_with_retry-IsHistory, send_with_retry_panics,
}
use lumen_horizon.Retry.Operation.{retry_async, asks_again, retry_async-IsHistory}

-- The configuration of the source's own test.
abbrev policy : RetryConfig
policy = record { max_attempts = 5; base_delay = from_millis 250; max_delay = from_millis 1_000 }

caps_exponential_backoff :
    (delay_for_attempt policy 1 ≡ from_millis 250)
    × (delay_for_attempt policy 2 ≡ from_millis 500)
    × (delay_for_attempt policy 3 ≡ from_millis 1_000)
    × (delay_for_attempt policy 4 ≡ from_millis 1_000)
unfolding delay_for_attempt
caps_exponential_backoff = (refl, refl, refl, refl)

classifies_status_codes :
    (is_retryable_status 408 ≡ true)
    × (is_retryable_status 429 ≡ true)
    × (is_retryable_status 502 ≡ true)
    × (is_retryable_status 404 ≡ false)
unfolding is_retryable_status
classifies_status_codes = (refl, refl, refl, refl)

delay-eq-backoff_example :
    delay_for_attempt policy 2
    ≡ min (from_millis (as_millis (from_millis 250) * 2 ^ delay_exponent 2)) (from_millis 1_000)
delay-eq-backoff_example = delay-eq-backoff policy 2 (omega arith)

-- A server that is always busy; requests are numbers.
abbrev busy : ℕ → ℕ → Reply
busy attempt request = response 503

send_with_retry-IsHistory_example :
    let run = send_with_retry some busy policy 7 in
    (r : Reply) × (run.end ≡ returned r)
    × IsHistory policy 5 (reply_to some busy 5 7 7) is_retryable 1 r run.waits
send_with_retry-IsHistory_example = send_with_retry-IsHistory some busy policy 7 7 refl

send_with_retry_panics_example :
    send_with_retry (λ (n : ℕ). none) busy policy 7
    ≡ record { end = panicked; waits = delay_for_attempt policy 1 ∷ [] }
unfolding is_retryable
send_with_retry_panics_example =
    send_with_retry_panics (λ (n : ℕ). none) busy policy 7 refl (omega arith) refl

-- An operation that fails for good, or that fails with a transient error first.
abbrev flaky : ℕ → Result Bool ℕ
flaky zero = err false
flaky (suc zero) = err true
flaky (suc (suc n)) = ok n

retry_async-IsHistory_example :
    let o = retry_async flaky (λ e. e) policy in
    (r : Result Bool ℕ) × (o.end ≡ some r)
    × IsHistory policy 5 flaky (asks_again flaky (λ e. e)) 1 r o.waits
retry_async-IsHistory_example = retry_async-IsHistory flaky (λ e. e) policy

retry_async_run :
    retry_async flaky (λ e. e) policy ≡ record { end = some (ok 0); waits = from_millis 250 ∷ [] }
unfolding retry_async delay_for_attempt
retry_async_run = refl
