-- ===== src/Retry/Operation.antt =====
-- `retry_async`: the operation is a callback, so its results are a parameter, one for each call.
use native.Mathlib.Decide.{ℕ_discrete}
use lumen_horizon.Prelude.{
  ℕ, zero, suc, ◌+◌, ◌≤◌, ◌<◌, ◌≡◌, ◌⊎◌, Bool, true, false, List, [], ◌∷◌, arith, refl, inl, inr,
  Option, none, some, max, ltb, ◌&&◌, if◌then◌else◌, Result, ok, err, Bool-cases,
}
use lumen_horizon.Retry.Delay.{Duration, RetryConfig, delay_for_attempt}
use lumen_horizon.Retry.History.{IsHistory, stop-IsHistory, again-IsHistory}

module _ {T E : Type 0} (operation : ℕ → Result E T) (should_retry : E → Bool) where
  -- `end` is `none` at the `unreachable!` behind the loop.
  pub record Outcome : Type 0 where
    pub end : Option (Result E T)
    pub waits : List Duration

  abbrev pub asks_again : Result E T → Bool
  asks_again (ok value) = false
  asks_again (err error) = should_retry error

  abbrev waited : Duration → Outcome → Outcome
  waited d o = record o { waits = d ∷ o.waits }

  -- The body of the loop on the result of one call, and the rest of the loop.
  after_call : RetryConfig → ℕ → ℕ → Result E T → Outcome → Outcome
  after_call c max_attempts attempt (ok value) rest = record { end = some (ok value); waits = [] }
  after_call c max_attempts attempt (err error) rest =
      if ltb attempt max_attempts && should_retry error
      then waited (delay_for_attempt c attempt) rest
      else record { end = some (err error); waits = [] }

  calls : RetryConfig → ℕ → ℕ → ℕ → Outcome
  calls c max_attempts zero attempt = record { end = none; waits = [] }
  calls c max_attempts (suc left) attempt =
      let rest = calls c max_attempts left (suc attempt) in
      after_call c max_attempts attempt (operation attempt) rest

  unfoldable pub retry_async : RetryConfig → Outcome
  unfolding calls after_call
  retry_async c = let max_attempts = max c.max_attempts 1 in calls c max_attempts max_attempts 1

  after_call_final :
      (c : RetryConfig) (limit attempt : ℕ) (r : Result E T) (rest : Outcome)
      → (attempt ≡ limit) ⊎ (asks_again r ≡ false)
      → after_call c limit attempt r rest ≡ record { end = some r; waits = [] }
  unfolding after_call
  after_call_final c limit attempt (ok v) rest h = refl
  after_call_final c limit attempt (err e) rest h = ground arith

  after_call_again :
      (c : RetryConfig) (limit attempt : ℕ) (r : Result E T) (rest : Outcome)
      → attempt < limit
      → asks_again r ≡ true
      → after_call c limit attempt r rest ≡ waited (delay_for_attempt c attempt) rest
  unfolding after_call
  after_call_again c limit attempt (ok v) rest h a = cc
  after_call_again c limit attempt (err e) rest h a = ground arith

  module _ (c : RetryConfig) (limit : ℕ) where
    abbrev Ends : ℕ → Outcome → Type 0
    Ends attempt o =
        (r : Result E T) × (o.end ≡ some r)
        × IsHistory c limit operation asks_again attempt r o.waits

    stops :
        (attempt : ℕ) (rest : Outcome)
        → attempt ≤ limit
        → (attempt ≡ limit) ⊎ (asks_again (operation attempt) ≡ false)
        → Ends attempt (after_call c limit attempt (operation attempt) rest)
    stops attempt rest h final =
        rw (after_call_final c limit attempt (operation attempt) rest final) (
          operation attempt,
          refl,
          stop-IsHistory c limit operation asks_again attempt _ h refl final,
        )

    calls-Ends :
        (left attempt : ℕ)
        → suc limit ≡ attempt + left
        → attempt ≤ limit
        → Ends attempt (calls c limit left attempt)
    unfolding calls
    calls-Ends zero attempt e h = absurd (omega arith)
    calls-Ends (suc left) attempt e h = elim (ℕ_discrete attempt limit) [
      | yes eq ↦ stops attempt _ h (inl eq)
      | no ne ↦ elim (Bool-cases (asks_again (operation attempt))) [
        | inr done ↦ stops attempt _ h (inr done)
        | inl again ↦
            let (r, ends, history) = calls-Ends left (suc attempt) (omega arith) (omega arith) in
            rw
              (after_call_again c limit attempt (operation attempt)
                (calls c limit left (suc attempt)) (omega arith) again)
              (r, ends, again-IsHistory c limit operation asks_again attempt again history)
      ]
    ]

  -- The loop never reaches its `unreachable!`: it calls the operation at most
  -- `max(max_attempts, 1)` times and returns the last result. Each result before it is an error to
  -- retry; it is the last allowed, a success or an error not to retry; the waits between the
  -- calls are those of the configuration.
  pub retry_async-IsHistory :
      (c : RetryConfig)
      → let o = retry_async c in
        (r : Result E T) × (o.end ≡ some r)
        × IsHistory c (max c.max_attempts 1) operation asks_again 1 r o.waits
  unfolding retry_async
  retry_async-IsHistory c =
      calls-Ends c (max c.max_attempts 1) (max c.max_attempts 1) 1 (omega arith) (omega arith)
