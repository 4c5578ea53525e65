-- ===== src/RateLimit/Window.antt =====
-- What the memory store's windows promise to the gateway.
use lumen_horizon.Prelude.{
  ℕ, ◌+◌, ◌-◌, ◌*◌, ◌^◌, ◌≤◌, ◌<◌, Text, ◌≡◌, ltb, leb, if◌then◌else◌, Option, none, some, Result,
  ok, err, List, [], ◌∷◌, length, All, arith, refl, ap, Option-cases, true, false, Bool-cases, inl,
  inr,
}
use lumen_horizon.Text.{text_eq, text_eq_iff}
use lumen_horizon.RateLimit.Policy.{RouteClass, policy, allowed_in_window}
use lumen_horizon.RateLimit.Store.{
  WindowCounter, Counters, memory_store, counted, entry, restart, bump, insert, snapshot,
}
use lumen_horizon.RateLimit.Limiter.{
  GatewayError, check, check_window, map_key, map_key_injective, verdict,
}

pub record Request : Type 0 where
  pub at : ℕ
  pub key : Text
  pub class : RouteClass

-- Requests that have been counted
abbrev pub used : Option WindowCounter → ℕ
used none = 0
used (some counter) = counter.count

-- One request that passes, or none
abbrev pub pass : {E : Type 0} → Result E (Unit {0}) → ℕ
pass (ok u) = 1
pass (err e) = 0

-- How many of the requests that stand under a map key pass, the store's state carried along.
unfoldable pub passed : Text → List Request → Counters → ℕ
unfolding check
passed key [] counters = 0
passed key (r ∷ rs) counters =
    let (reply, counters') = check memory_store r.at r.key r.class counters in
    let rest = passed key rs counters' in
    if text_eq (map_key r.class r.key) key then pass reply + rest else rest

-- The requests fall into less than one window from the time `start`.
abbrev pub IsInSpan : ℕ → List Request → Type 0
IsInSpan start = All (λ r. (start ≤ r.at) × (r.at < start + check_window))

-- What a counter can still let pass until a window from `start` is over.
abbrev room : ℕ → ℕ → Option WindowCounter → ℕ
room allowed start none = allowed
room allowed start (some counter) =
    if leb start counter.started_at
    then allowed - counter.count
    else (allowed - counter.count) + allowed

room-counted :
    (allowed start now : ℕ) (found : Option WindowCounter)
    → start ≤ now
    → now < start + check_window
    → used found + 1 < 2 ^ 64
    → (if ltb allowed (counted now check_window found).count then 0 else 1)
        + room allowed start (some (counted now check_window found))
      ≤ room allowed start found
unfolding counted entry restart bump
room-counted allowed start now none p q small = ground arith
room-counted allowed start now (some counter) p q small = ground arith

used-counted :
    (now : ℕ) (found : Option WindowCounter)
    → used found + 1 < 2 ^ 64
    → used (some (counted now check_window found)) ≤ used found + 1
unfolding counted entry restart bump
used-counted now none small = ground arith
used-counted now (some counter) small = ground arith

-- The store behind one request
after : Request → Counters → Counters
after r counters =
    insert (map_key r.class r.key) (counted r.at check_window (counters (map_key r.class r.key)))
      counters

reply_of : Request → Counters → Result GatewayError (Unit {0})
reply_of r counters =
    verdict r.class (
      ok
        (snapshot r.at check_window (counted r.at check_window (counters (map_key r.class r.key)))))

passed-other :
    (key : Text) (r : Request) (rs : List Request) (counters : Counters)
    → text_eq (map_key r.class r.key) key ≡ false
    → passed key (r ∷ rs) counters ≡ passed key rs (after r counters)
unfolding passed after
passed-other key r rs counters other = rw other refl

passed-same :
    (key : Text) (r : Request) (rs : List Request) (counters : Counters)
    → text_eq (map_key r.class r.key) key ≡ true
    → passed key (r ∷ rs) counters ≡ pass (reply_of r counters) + passed key rs (after r counters)
unfolding passed reply_of after
passed-same key r rs counters same = rw same refl

insert-same :
    (key : Text) (counter : WindowCounter) (counters : Counters)
    → insert key counter counters key ≡ some counter
unfolding insert
insert-same key counter counters = rw ((text_eq_iff key key).1 refl) refl

insert-other :
    (key k : Text) (counter : WindowCounter) (counters : Counters)
    → text_eq k key ≡ false
    → insert key counter counters k ≡ counters k
unfolding insert
insert-other key k counter counters other = rw other refl

text_eq_sym : (s t : Text) → text_eq s t ≡ false → text_eq t s ≡ false
text_eq_sym s t h = ground (arith, text_eq_iff s t, text_eq_iff t s)

after-same :
    (r : Request) (counters : Counters) (key : Text)
    → map_key r.class r.key ≡ key
    → after r counters key ≡ some (counted r.at check_window (counters key))
unfolding after
after-same r counters key e =
    rw e (insert-same key (counted r.at check_window (counters key)) counters)

after-other :
    (r : Request) (counters : Counters) (key : Text)
    → text_eq (map_key r.class r.key) key ≡ false
    → after r counters key ≡ counters key
unfolding after
after-other r counters key other = insert-other _ key _ counters (text_eq_sym _ key other)

pass-reply_of :
    (r : Request) (counters : Counters) (class : RouteClass) (key : Text)
    → r.class ≡ class
    → map_key r.class r.key ≡ key
    → pass (reply_of r counters) ≡ (
        if ltb (allowed_in_window (policy class)) (counted r.at check_window (counters key)).count
        then 0
        else 1)
unfolding reply_of verdict snapshot
pass-reply_of r counters class key c k = rw (← c, ← k) (ground arith)

passed-nil : (key : Text) (counters : Counters) → passed key [] counters ≡ 0
unfolding passed
passed-nil key counters = refl

passed-room :
    (class : RouteClass) (client : Text) (start : ℕ) (rs : List Request) (counters : Counters)
    → IsInSpan start rs
    → used (counters (map_key class client)) + length rs < 2 ^ 64
    → passed (map_key class client) rs counters
      ≤ room (allowed_in_window (policy class)) start (counters (map_key class client))
passed-room class client start [] counters span small =
    rw (passed-nil (map_key class client) counters) (omega arith)
passed-room class client start (r ∷ rs) counters ((p, q), span) small =
    let key = map_key class client in
    elim (Bool-cases (text_eq (map_key r.class r.key) key)) [
      | inl same ↦
          let e = (text_eq_iff _ _).0 same in
          let (same_class, _) = map_key_injective r.class class r.key client e in
          let found = counters key in
          let now_counted = after-same r counters key e in
          let step =
            room-counted (allowed_in_window (policy class)) start r.at found p q (omega arith) in
          let grown = used-counted r.at found (omega arith) in
          let rest =
            passed-room class client start rs (after r counters) span
              (rw now_counted (omega arith)) in
          let passes = pass-reply_of r counters class key same_class e in
          rw (passed-same key r rs counters same, passes) (omega (arith, rw now_counted at rest))
      | inr other ↦
          let kept = after-other r counters key other in
          let rest =
            passed-room class client start rs (after r counters) span (rw kept (omega arith)) in
          rw (passed-other key r rs counters other) (rw kept at rest)
    ]

-- Among requests that fall into less than one window, wherever it starts, at most twice the allowed
-- number of one client and class pass, as long as the counter stays below 2 ^ 64.
pub passed_bounded :
    (class : RouteClass) (client : Text) (start : ℕ) (rs : List Request) (counters : Counters)
    → IsInSpan start rs
    → used (counters (map_key class client)) + length rs < 2 ^ 64
    → passed (map_key class client) rs counters ≤ 2 * allowed_in_window (policy class)
passed_bounded class client start rs counters span small =
    let bound = passed-room class client start rs counters span small in
    elim (Option-cases (counters (map_key class client))) [
      | inl e ↦ omega (arith, rw e at bound)
      | inr (counter, e) ↦ ground (arith, rw e at bound)
    ]

-- Of a client that has no counter yet, at most the allowed number of requests of a class, of fewer than
-- 2 ^ 64 in all, pass in less than one window.
pub passed_fresh :
    (class : RouteClass) (client : Text) (start : ℕ) (rs : List Request) (counters : Counters)
    → IsInSpan start rs
    → length rs < 2 ^ 64
    → counters (map_key class client) ≡ none
    → passed (map_key class client) rs counters ≤ allowed_in_window (policy class)
passed_fresh class client start rs counters span small fresh =
    let bound = passed-room class client start rs counters span (rw fresh (omega arith)) in
    rw fresh at bound

keys_differ :
    (c d : RouteClass) (k l : Text)
    → ¬ ((c ≡ d) × (k ≡ l))
    → text_eq (map_key c k) (map_key d l) ≡ false
keys_differ c d k l differ = elim (Bool-cases (text_eq (map_key c k) (map_key d l))) [
  | inl same ↦ absurd (differ (map_key_injective c d k l ((text_eq_iff _ _).0 same)))
  | inr other ↦ other
]

-- A request changes no reply to another client or class.
pub check-other :
    (now later : ℕ) (c d : RouteClass) (k l : Text) (counters : Counters)
    → ¬ ((c ≡ d) × (k ≡ l))
    → (check memory_store later l d (check memory_store now k c counters).1).0
      ≡ (check memory_store later l d counters).0
unfolding check insert after
check-other now later c d k l counters differ =
    let kept =
      after-other (record { at = now; key = k; class = c }) counters (map_key d l)
        (keys_differ c d k l differ) in
    ap (λ found. verdict d (ok (snapshot later check_window (counted later check_window found))))
      kept
