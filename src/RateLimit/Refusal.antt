-- ===== src/RateLimit/Refusal.antt =====
-- What a refused client is told, and that it gets in later.
use lumen_horizon.Prelude.{
  ℕ, ◌+◌, ◌-◌, ◌*◌, ◌≤◌, Text, ◌≡◌, Option, none, some, ok, err, arith, refl, sym, ◌∙◌,
}
use lumen_horizon.Text.{text_eq_iff}
use lumen_horizon.RateLimit.Policy.{RouteClass, policy, allowed_in_window}
use lumen_horizon.RateLimit.Store.{
  WindowCounter, WindowSnapshot, Counters, memory_store, counted, entry, restart, bump, insert,
  snapshot, second,
}
use lumen_horizon.RateLimit.Limiter.{rate_limited, check, check_window, map_key, verdict}

-- The clock has not gone back behind the start of the counter.
abbrev pub IsStarted : ℕ → Option WindowCounter → Type 0
IsStarted now none = Unit
IsStarted now (some counter) = counter.started_at ≤ now

retry_after_bounds :
    (now : ℕ) (counter : WindowCounter)
    → (1 ≤ (snapshot now check_window counter).retry_after_seconds)
      × ((snapshot now check_window counter).retry_after_seconds ≤ 60)
unfolding snapshot
retry_after_bounds now counter = (ground arith, ground arith)

verdict_elim :
    (class : RouteClass) (s : WindowSnapshot) (r : ℕ)
    → verdict class (ok s) ≡ err (rate_limited r)
    → r ≡ s.retry_after_seconds
unfolding verdict
verdict_elim class s r e = ground arith

counted-IsStarted :
    (now : ℕ) (found : Option WindowCounter)
    → IsStarted now found
    → (counted now check_window found).started_at ≤ now
unfolding counted entry restart bump
counted-IsStarted now none started = ground arith
counted-IsStarted now (some counter) started = ground arith

expired :
    (now later : ℕ) (counter : WindowCounter)
    → counter.started_at ≤ now
    → now + ((snapshot now check_window counter).retry_after_seconds + 1) * second ≤ later
    → check_window ≤ later - counter.started_at
unfolding snapshot
expired now later counter started p = ground arith

counted-expired :
    (later : ℕ) (counter : WindowCounter)
    → check_window ≤ later - counter.started_at
    → (counted later check_window (some counter)).count ≡ 1
unfolding counted entry restart bump
counted-expired later counter over = ground arith

policy_positive : (class : RouteClass) → 1 ≤ allowed_in_window (policy class)
policy_positive class = ground arith

verdict-first :
    (class : RouteClass) (s : WindowSnapshot) → s.count ≡ 1 → verdict class (ok s) ≡ ok tt
unfolding verdict
verdict-first class s e = ground (arith, policy_positive class)

-- The counter that a check leaves behind
check-counter :
    (now : ℕ) (key : Text) (class : RouteClass) (counters : Counters)
    → (check memory_store now key class counters).1 (map_key class key)
      ≡ some (counted now check_window (counters (map_key class key)))
unfolding check insert
check-counter now key class counters =
    rw ((text_eq_iff (map_key class key) (map_key class key)).1 refl) refl

check-reply :
    (now : ℕ) (key : Text) (class : RouteClass) (counters : Counters)
    → (check memory_store now key class counters).0
      ≡ verdict class
          (ok (snapshot now check_window (counted now check_window (counters (map_key class key)))))
unfolding check
check-reply now key class counters = refl

verdict-snapshot :
    (later : ℕ) (class : RouteClass) (counter : WindowCounter)
    → counter.count ≡ 1
    → verdict class (ok (snapshot later check_window counter)) ≡ ok tt
unfolding snapshot
verdict-snapshot later class counter e = verdict-first class _ e

-- A refused client is told to wait between 1 and 60 seconds, and one second after that time, with no
-- request in between, it is let pass. The clock is monotonic: no counter starts after the time of the refusal.
pub refusal_recovers :
    (now later : ℕ) (key : Text) (class : RouteClass) (counters : Counters) (r : ℕ)
    → IsStarted now (counters (map_key class key))
    → (check memory_store now key class counters).0 ≡ err (rate_limited r)
    → now + (r + 1) * second ≤ later
    → (1 ≤ r)
      × (r ≤ 60)
      × ((check memory_store later key class (check memory_store now key class counters).1).0
          ≡ ok tt)
refusal_recovers now later key class counters r started refused waited =
    let counter = counted now check_window (counters (map_key class key)) in
    let told =
      verdict_elim class (snapshot now check_window counter) r
        (sym (check-reply now key class counters) ∙ refused) in
    let (low, high) = retry_after_bounds now counter in
    let over = expired now later counter (counted-IsStarted now _ started) (rw told at waited) in
    let next = check-reply later key class (check memory_store now key class counters).1 in
    let fresh = counted-expired later counter over in
    (
      rw told low,
      rw told high,
      next ∙ rw (check-counter now key class counters) (verdict-snapshot later class _ fresh),
    )
