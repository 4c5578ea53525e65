-- ===== src/Retry/Send.antt =====
-- `send_with_retry`. The request's type, `try_clone` and `send` are reqwest's: parameters.
-- Logging is left out; a wait is recorded by its length.
use lumen_horizon.Prelude.{
  ℕ, zero, suc, ◌+◌, ◌-◌, ◌≤◌, ◌<◌, ◌≡◌, Bool, true, false, List, [], ◌∷◌, arith, refl, inl, inr,
  Option, none, some, max, ltb, leb, ◌==◌, ◌&&◌, ◌||◌, if◌then◌else◌, Bool-cases,
}
use native.Mathlib.Decide.{ℕ_discrete}
use lumen_horizon.Retry.Delay.{Duration, RetryConfig, delay_for_attempt}
use lumen_horizon.Retry.History.{IsHistory, stop-IsHistory, again-IsHistory}

-- `reqwest::Error`, by the two tests that the loop makes of it.
pub record SendError : Type 0 where
  pub is_timeout : Bool
  pub is_connect : Bool

pub data Reply : Type 0 where
  response : ℕ → Reply
  failure : SendError → Reply

-- `StatusCode::is_server_error` is the range 500 to 599.
unfoldable pub is_retryable_status : ℕ → Bool
is_retryable_status status = status == 408 || status == 429 || leb 500 status && ltb status 600

is_retryable_error : SendError → Bool
is_retryable_error error = error.is_timeout || error.is_connect

unfoldable pub is_retryable : Reply → Bool
unfolding is_retryable_status is_retryable_error
is_retryable (response status) = is_retryable_status status
is_retryable (failure error) = is_retryable_error error

-- How a call ends: with a reply, or at an `expect` on a request that is gone. Beside it stand the
-- waits that the call has made.
pub data End : Type 0 where
  returned : Reply → End
  panicked : End

pub record Run : Type 0 where
  pub end : End
  pub waits : List Duration

abbrev wait_before_retry : Duration → Run → Run
wait_before_retry d run = record run { waits = d ∷ run.waits }

module _ {Request : Type 0} (try_clone : Request → Option Request)
    (send : ℕ → Request → Reply) where
  -- The request of one attempt, with what `request` holds afterwards; `none` where `take()` finds
  -- nothing.
  take_request : Option Request → Option (Request × Option Request)
  take_request none = none
  take_request (some request) = some (request, none)

  cloned_or_taken : Request → Option Request → Option (Request × Option Request)
  cloned_or_taken request (some cloned) = some (cloned, some request)
  cloned_or_taken request none = some (request, none)

  attempt_request : Bool → Option Request → Option (Request × Option Request)
  unfolding take_request cloned_or_taken
  attempt_request true request = take_request request
  attempt_request false none = none
  attempt_request false (some request) = cloned_or_taken request (try_clone request)

  -- The body of `for attempt in 1..=max_attempts`, with the count of attempts left.
  attempts : RetryConfig → ℕ → ℕ → ℕ → Option Request → Run
  attempts c max_attempts zero attempt request = record { end = panicked; waits = [] }
  attempts c max_attempts (suc left) attempt request =
      elim (attempt_request (attempt == max_attempts) request) [
        | none ↦ record { end = panicked; waits = [] }
        | some (sent, kept) ↦ elim (ltb attempt max_attempts && is_retryable (send attempt sent)) [
          | true ↦
              wait_before_retry (delay_for_attempt c attempt)
                (attempts c max_attempts left (suc attempt) kept)
          | false ↦ record { end = returned (send attempt sent); waits = [] }
        ]
      ]

  unfoldable pub send_with_retry : RetryConfig → Request → Run
  unfolding attempts attempt_request is_retryable
  send_with_retry c request =
      let max_attempts = max c.max_attempts 1 in
      attempts c max_attempts max_attempts 1 (some request)

  -- The answers to a request that can be cloned: each attempt sends a clone, the last the request.
  abbrev pub reply_to : ℕ → Request → Request → ℕ → Reply
  reply_to limit request cloned attempt =
      send attempt (if attempt == limit then request else cloned)

  module _ (c : RetryConfig) (request cloned : Request) (clones : try_clone request ≡ some cloned)
      (limit : ℕ) where
    attempts_last :
        (left : ℕ)
        → attempts c limit (suc left) limit (some request)
          ≡ record { end = returned (reply_to limit request cloned limit); waits = [] }
    unfolding attempts attempt_request
    attempts_last left = ground arith

    attempts_next :
        (left attempt : ℕ)
        → attempt < limit
        → attempts c limit (suc left) attempt (some request) ≡ (
            if is_retryable (reply_to limit request cloned attempt)
            then wait_before_retry
                (delay_for_attempt c attempt)
                (attempts c limit left (suc attempt) (some request))
            else record { end = returned (reply_to limit request cloned attempt); waits = [] })
    unfolding attempts attempt_request
    attempts_next left attempt h = ground arith

    abbrev Ends : ℕ → Run → Type 0
    Ends attempt run =
        (r : Reply) × (run.end ≡ returned r)
        × IsHistory c limit (reply_to limit request cloned) is_retryable attempt r run.waits

    attempts-Ends :
        (left attempt : ℕ)
        → suc limit ≡ attempt + left
        → attempt ≤ limit
        → Ends attempt (attempts c limit left attempt (some request))
    attempts-Ends zero attempt e h = absurd (omega arith)
    attempts-Ends (suc left) attempt e h = elim (ℕ_discrete attempt limit) [
      | yes eq ↦
          rw (eq, attempts_last left)
            (_, refl, stop-IsHistory c limit _ is_retryable limit _ (omega arith) refl (inl refl))
      | no ne ↦
          rw (attempts_next left attempt (omega arith))
            (elim (Bool-cases (is_retryable (reply_to limit request cloned attempt))) [
              | inl again ↦ rw again (
                  let (r, ends, history) =
                    attempts-Ends left (suc attempt) (omega arith) (omega arith) in
                  (r, ends, again-IsHistory c limit _ is_retryable attempt again history))
              | inr done ↦
                  rw done
                    (_, refl, stop-IsHistory c limit _ is_retryable attempt _ h refl (inr done))
            ])
    ]

  -- A request that can be cloned is never lost: the call returns, with the reply to one of its at
  -- most `max(max_attempts, 1)` attempts. Each attempt before it asked for a retry; it is the last
  -- allowed or asks for none; and between the attempts stand the waits of the configuration.
  pub send_with_retry-IsHistory :
      (c : RetryConfig) (request cloned : Request)
      → try_clone request ≡ some cloned
      → let run = send_with_retry c request in
        let limit = max c.max_attempts 1 in
        (r : Reply) × (run.end ≡ returned r)
        × IsHistory c limit (reply_to limit request cloned) is_retryable 1 r run.waits
  unfolding send_with_retry
  send_with_retry-IsHistory c request cloned clones =
      attempts-Ends c request cloned clones (max c.max_attempts 1) (max c.max_attempts 1) 1
        (omega arith) (omega arith)

  uncloned :
      (c : RetryConfig) (request : Request) (left : ℕ)
      → try_clone request ≡ none
      → is_retryable (send 1 request) ≡ true
      → attempts c (suc (suc left)) (suc (suc left)) 1 (some request)
        ≡ record { end = panicked; waits = delay_for_attempt c 1 ∷ [] }
  unfolding attempts attempt_request
  uncloned c request left clones again = ground arith

  -- A request that cannot be cloned is taken by the first attempt. Where more attempts are allowed
  -- and the first reply asks for a retry, the next attempt finds no request and panics, after one wait.
  pub send_with_retry_panics :
      (c : RetryConfig) (request : Request)
      → try_clone request ≡ none
      → 1 < c.max_attempts
      → is_retryable (send 1 request) ≡ true
      → send_with_retry c request ≡ record { end = panicked; waits = delay_for_attempt c 1 ∷ [] }
  unfolding send_with_retry
  send_with_retry_panics c request clones h again =
      let e : max c.max_attempts 1 ≡ suc (suc (c.max_attempts - 2)) = omega arith in
      rw e (uncloned c request (c.max_attempts - 2) clones again)
