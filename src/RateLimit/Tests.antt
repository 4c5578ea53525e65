-- ===== src/RateLimit/Tests.antt =====
-- Administrators that write: 15 requests pass, the next is told to wait. With the witnesses.
use lumen_horizon.Prelude.{ℕ, ◌*◌, ◌≤◌, ◌≡◌, refl, ok, err, codes, List, [], ◌∷◌, none, some, arith}
use lumen_horizon.RateLimit.Policy.{admin_write, admin_read}
use lumen_horizon.RateLimit.Store.{
  Counters, memory_store, second, unavailable_store, counted, snapshot, insert,
}
use lumen_horizon.RateLimit.Limiter.{rate_limited, service_unavailable, check, map_key}
use lumen_horizon.RateLimit.Window.{Request, passed, passed_bounded, check-other}
use lumen_horizon.RateLimit.Refusal.{refusal_recovers}
use lumen_horizon.Text.{text_eq}

abbrev start : Counters
start key = none

abbrev write_at : ℕ → Request
write_at t = record { at = t; key = codes "10.0.0.1"; class = admin_write }

abbrev three : List Request
three = write_at second ∷ write_at (2 * second) ∷ write_at (3 * second) ∷ []

three_pass : passed (map_key admin_write (codes "10.0.0.1")) three start ≡ 3
unfolding passed text_eq snapshot counted insert
three_pass = refl

unavailable :
    check unavailable_store 5 (codes "10.0.0.1") admin_read tt
    ≡ (err (service_unavailable (codes "rate-limit store is unavailable")), tt)
unfolding check
unavailable = refl

passed_bounded_example : passed (map_key admin_write (codes "10.0.0.1")) three start ≤ 30
passed_bounded_example =
    passed_bounded admin_write (codes "10.0.0.1") second three start (ground arith) (ground arith)

check-other_example :
    (check memory_store 9
      (codes "10.0.0.1")
      admin_write
      (check memory_store 8 (codes "10.0.0.1") admin_read start).1).0
    ≡ (check memory_store 9 (codes "10.0.0.1") admin_write start).0
check-other_example =
    check-other 8 9 admin_read admin_write (codes "10.0.0.1") (codes "10.0.0.1") start
      (λ (p, q). cc)

-- The counter has let 15 requests pass.
abbrev full : Counters
full key = some (record { started_at = 0; count = 15 })

is_refused :
    (check memory_store (10 * second) (codes "10.0.0.1") admin_write full).0 ≡ err (rate_limited 50)
unfolding check snapshot counted
is_refused = refl

refusal_recovers_example :
    (1 ≤ 50)
    × (50 ≤ 60)
    × ((check memory_store
          (61 * second)
          (codes "10.0.0.1")
          admin_write
          (check memory_store (10 * second) (codes "10.0.0.1") admin_write full).1).0
        ≡ ok tt)
refusal_recovers_example =
    refusal_recovers (10 * second) (61 * second) (codes "10.0.0.1") admin_write full 50
      (ground arith) is_refused (ground arith)
