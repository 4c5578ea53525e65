-- ===== src/RateLimit/Store.antt =====
-- The stores that count the requests of a window. Times are nanoseconds of a monotonic clock.
-- The memory store's map is a function; its mutex makes a call one step.
use lumen_horizon.Prelude.{
  ℕ, ◌+◌, ◌-◌, ◌/◌, ◌%◌, ◌^◌, max, Text, codes, leb, if◌then◌else◌, Option, none, some, Result, ok,
  err,
}
use lumen_horizon.Text.{text_eq}

pub record WindowCounter : Type 0 where
  pub started_at : ℕ
  pub count : ℕ

pub record WindowSnapshot : Type 0 where
  pub count : ℕ
  pub retry_after_seconds : ℕ

-- The operation that failed.
pub record RateLimitStoreError : Type 0 where
  pub operation : Text

-- What the limiter asks of a store: at a time, for a key and a window, one step of the state.
pub record RateLimitStore (S : Type 0) : Type 0 where
  pub increment_window : ℕ → Text → ℕ → S → Result RateLimitStoreError WindowSnapshot × S
  pub check_health : S → Result RateLimitStoreError (Unit {0})

abbrev pub second : ℕ
second = 1000000000

abbrev pub Counters : Type 0
Counters = Text → Option WindowCounter

-- `entry(key).or_insert_with(...)`
unfoldable pub entry : ℕ → Option WindowCounter → WindowCounter
entry now none = record { started_at = now; count = 0 }
entry now (some counter) = counter

-- A window that is over starts again.
unfoldable pub restart : ℕ → ℕ → WindowCounter → WindowCounter
restart now window counter =
    if leb window (now - counter.started_at)
    then record { started_at = now; count = 0 }
    else counter

-- `counter.count += 1`, a u64
unfoldable pub bump : WindowCounter → WindowCounter
bump counter = record { started_at = counter.started_at; count = (counter.count + 1) % 2 ^ 64 }

unfoldable pub counted : ℕ → ℕ → Option WindowCounter → WindowCounter
unfolding entry restart bump
counted now window found = bump (restart now window (entry now found))

unfoldable pub snapshot : ℕ → ℕ → WindowCounter → WindowSnapshot
snapshot now window counter = record {
  count = counter.count;
  retry_after_seconds = max ((window - (now - counter.started_at)) / second) 1;
}

unfoldable pub insert : Text → WindowCounter → Counters → Counters
insert key counter counters k = if text_eq k key then some counter else counters k

abbrev pub memory_store : RateLimitStore Counters
memory_store = record {
  increment_window = λ now key window counters. (
    ok (snapshot now window (counted now window (counters key))),
    insert key (counted now window (counters key)) counters,
  );
  check_health = λ counters. ok tt;
}

-- The connection and the script are Redis's: what it answers for a key and the seconds of the window.
abbrev pub redis_store :
    {S : Type 0}
    → (S → Result RateLimitStoreError (Unit {0}))
    → (Text → ℕ → S → Result RateLimitStoreError (ℕ × ℕ) × S)
    → RateLimitStore S
redis_store ping script = record {
  increment_window = λ now key window s. redis_reply (script key (max (window / second) 1) s);
  check_health = ping;
}
  where
    redis_reply :
        {S : Type 0}
        → Result RateLimitStoreError (ℕ × ℕ) × S
        → Result RateLimitStoreError WindowSnapshot × S
    redis_reply (ok (count, ttl), s) =
        (ok (record { count = count; retry_after_seconds = max ttl 1 }), s)
    redis_reply (err e, s) = (err e, s)

abbrev pub unavailable_store : {S : Type 0} → RateLimitStore S
unavailable_store = record {
  increment_window = λ now key window s. (err (record { operation = codes "connect" }), s);
  check_health = λ s. err (record { operation = codes "connect" });
}
