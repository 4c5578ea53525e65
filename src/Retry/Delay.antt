-- ===== src/Retry/Delay.antt =====
-- `RetryConfig` and the wait before a retry. A `Duration` is its nanoseconds.
use native.Mathlib.Nat.{
  mul-le-mul, mul-le-mul_right, le-mul_of_pos_right, le_trans, one-le-pow, pow-le-pow_right,
}
use native.Mathlib.Decide.{dec_le}
use lumen_horizon.Prelude.{ℕ, ◌-◌, ◌*◌, ◌/◌, ◌^◌, ◌≤◌, ◌<◌, min, ◌≡◌, arith}

abbrev pub Duration : Type 0
Duration = ℕ

abbrev pub u64_max : ℕ
u64_max = 2 ^ 64 - 1

abbrev nanos_per_milli : ℕ
nanos_per_milli = 1_000_000

-- `Duration::as_millis` and `Duration::from_millis`.
abbrev pub as_millis : Duration → ℕ
as_millis d = d / nanos_per_milli

abbrev pub from_millis : ℕ → Duration
from_millis m = m * nanos_per_milli

pub record RetryConfig : Type 0 where
  pub max_attempts : ℕ
  pub base_delay : Duration
  pub max_delay : Duration

-- `-` stops at 0, as `saturating_sub` does.
abbrev pub delay_exponent : ℕ → ℕ
delay_exponent attempt = min (attempt - 1) 31

-- `1u64 << exponent` and `saturating_mul`, for a base of so many milliseconds.
abbrev pub delay_millis : ℕ → ℕ → ℕ
delay_millis base_millis attempt = min (base_millis * 2 ^ delay_exponent attempt) u64_max

unfoldable pub delay_for_attempt : RetryConfig → ℕ → Duration
delay_for_attempt c attempt =
    min (from_millis (delay_millis (min (as_millis c.base_delay) u64_max) attempt)) c.max_delay

-- The shift never leaves a u64, so it is the power of two itself.
pub shift_fits : (attempt : ℕ) → 2 ^ delay_exponent attempt < 2 ^ 64
shift_fits attempt =
    let h : 2 ^ delay_exponent attempt ≤ 2 ^ 31 =
      pow-le-pow_right {n = 2} (omega arith) {j = 31} (omega arith) in
    omega arith

power_mono : (a b : ℕ) → a ≤ b → 2 ^ delay_exponent a ≤ 2 ^ delay_exponent b
power_mono a b h = pow-le-pow_right {n = 2} (omega arith) (omega arith)

-- Whatever the configuration: a wait is at most `max_delay`, and a later attempt waits no less
-- than an earlier one.
pub delay_bounded_monotone :
    (c : RetryConfig) (a b : ℕ)
    → a ≤ b
    → (delay_for_attempt c a ≤ delay_for_attempt c b) × (delay_for_attempt c b ≤ c.max_delay)
unfolding delay_for_attempt
delay_bounded_monotone c a b h =
    let base = min (as_millis c.base_delay) u64_max in
    let m : base * 2 ^ delay_exponent a ≤ base * 2 ^ delay_exponent b =
      mul-le-mul {n₁ = base} (omega arith) (power_mono a b h) in
    (omega arith, omega arith)

module _ (u m k : ℕ) (m_small : m ≤ u * k) where
  past_cap : (q : ℕ) → u ≤ q → min (q * k) m ≡ m
  past_cap q h = let g : u * k ≤ q * k = mul-le-mul_right k h in omega arith

  capped : (q : ℕ) → min (min q u * k) m ≡ min (q * k) m
  capped q = elim (dec_le u q) [
    | yes h ↦ let e : min q u ≡ u = omega arith in rw (e, past_cap q h) (past_cap u (omega arith))
    | no h ↦ let e : min q u ≡ q = omega arith in rw e
  ]

  -- Multiplication that saturates at `u` is exact below a bound of `u * k`.
  saturation_hidden : (x p : ℕ) → 0 < p → min (min (min x u * p) u * k) m ≡ min (x * p * k) m
  saturation_hidden x p pos = rw capped (elim (dec_le u x) [
    | yes h ↦
        let e : min x u ≡ u = omega arith in
        rw (e, past_cap (x * p) (le_trans h (le-mul_of_pos_right x pos)))
          (past_cap (u * p) (le-mul_of_pos_right u pos))
    | no h ↦ let e : min x u ≡ x = omega arith in rw e
  ])

-- The two saturations never show: as long as `max_delay` is itself a number of milliseconds in a
-- u64, the wait before attempt `a + 1` is the smaller of `max_delay` and the whole milliseconds of
-- `base_delay` times 2 to the power of `a - 1`, at most 31.
pub delay-eq-backoff :
    (c : RetryConfig) (a : ℕ)
    → c.max_delay ≤ from_millis u64_max
    → delay_for_attempt c a
      ≡ min (from_millis (as_millis c.base_delay * 2 ^ delay_exponent a)) c.max_delay
unfolding delay_for_attempt
delay-eq-backoff c a h =
    saturation_hidden u64_max c.max_delay nanos_per_milli h (as_millis c.base_delay)
      (2 ^ delay_exponent a) (one-le-pow (delay_exponent a) 2 (omega arith))
