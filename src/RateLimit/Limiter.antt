-- ===== src/RateLimit/Limiter.antt =====
-- `RateLimiter::check` over any store.
use lumen_horizon.Prelude.{ℕ, ◌*◌, ltb, ◌≡◌, Text, codes, ◌++◌, ◌∷◌, if◌then◌else◌, Result, ok, err}
use lumen_horizon.Text.Split.{split_unique}
use lumen_horizon.RateLimit.Policy.{
  RouteClass, class_text, class_text_injective, class_text-Lacks, policy, allowed_in_window,
}
use lumen_horizon.RateLimit.Store.{RateLimitStore, RateLimitStoreError, WindowSnapshot, second}

pub data GatewayError : Type 0 where
  rate_limited : ℕ → GatewayError
  service_unavailable : Text → GatewayError

abbrev pub check_window : ℕ
check_window = 60 * second

unfoldable pub map_key : RouteClass → Text → Text
map_key class key = class_text class ++ b':' ∷ key

unfoldable pub verdict :
    RouteClass → Result RateLimitStoreError WindowSnapshot → Result GatewayError (Unit {0})
verdict class (err e) = err (service_unavailable (codes "rate-limit store is unavailable"))
verdict class (ok snapshot) =
    if ltb (allowed_in_window (policy class)) snapshot.count
    then err (rate_limited snapshot.retry_after_seconds)
    else ok tt

unfoldable pub check :
    {S : Type 0} → RateLimitStore S → ℕ → Text → RouteClass → S → Result GatewayError (Unit {0}) × S
unfolding verdict map_key
check store now key class s =
    let (reply, s') = store.increment_window now (map_key class key) check_window s in
    (verdict class reply, s')

-- Two pairs of a class and a client have one counter only if they are one pair.
pub map_key_injective :
    (c d : RouteClass) (k l : Text) → map_key c k ≡ map_key d l → (c ≡ d) × (k ≡ l)
unfolding map_key
map_key_injective c d k l e =
    let (same_class, same_key) =
      split_unique b':' (class_text c) (class_text d) k l (class_text-Lacks c) (class_text-Lacks d)
        e in
    (class_text_injective c d same_class, same_key)
