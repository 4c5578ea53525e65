-- ===== src/Retry/History.antt =====
-- What a retry loop promises: the reply that it returns is the first that is final, and between
-- two attempts it waits as the configuration says.
use lumen_horizon.Prelude.{
  ℕ, zero, suc, ◌+◌, ◌≤◌, ◌<◌, ◌≡◌, ◌⊎◌, Bool, true, false, List, [], ◌∷◌, arith, refl, ap,
}
use native.Mathlib.Decide.{ℕ_discrete}
use lumen_horizon.Retry.Delay.{Duration, RetryConfig, delay_for_attempt}

-- The waits after the attempts `from`, `from + 1`, …, so many of them.
abbrev pub waits_from : RetryConfig → ℕ → ℕ → List Duration
waits_from c from zero = []
waits_from c from (suc n) = delay_for_attempt c from ∷ waits_from c (suc from) n

module _ {ℓ} {R : Type ℓ} (c : RetryConfig) (limit : ℕ) (reply : ℕ → R) (retryable : R → Bool) where
  -- The loop, entered at attempt `from`, makes `retries` retries and returns the reply to the last
  -- attempt: every reply before it asks for a retry, and it is the last allowed or asks for none.
  pub record IsHistory (from : ℕ) (r : R) (waits : List Duration) : Type ℓ where
    pub retries : ℕ
    pub in_limit : from + retries ≤ limit
    pub returned : r ≡ reply (from + retries)
    pub retried : (i : ℕ) → from ≤ i → i < from + retries → retryable (reply i) ≡ true
    pub final : (from + retries ≡ limit) ⊎ (retryable r ≡ false)
    pub waited : waits ≡ waits_from c from retries

  pub stop-IsHistory :
      (from : ℕ) (r : R)
      → from ≤ limit
      → r ≡ reply from
      → (from ≡ limit) ⊎ (retryable r ≡ false)
      → IsHistory from r []
  stop-IsHistory from r h e f =
      let z : from + 0 ≡ from = omega arith in
      record {
        retries = 0;
        in_limit = omega arith;
        returned = rw z e;
        retried = λ i a b. absurd (omega arith);
        final = rw z f;
        waited = refl;
      }

  pub again-IsHistory :
      (from : ℕ) {r : R} {waits : List Duration}
      → retryable (reply from) ≡ true
      → IsHistory (suc from) r waits
      → IsHistory from r (delay_for_attempt c from ∷ waits)
  again-IsHistory from {r} h t =
      let z : from + suc t.retries ≡ suc from + t.retries = omega arith in
      record {
        retries = suc t.retries;
        in_limit = omega arith;
        returned = rw z t.returned;
        retried = λ i a b. elim (ℕ_discrete from i) [
          | yes e ↦ rw e at h
          | no ne ↦ t.retried i (omega arith) (omega arith)
        ];
        final = rw z t.final;
        waited = ap (◌∷◌ (delay_for_attempt c from)) t.waited;
      }
