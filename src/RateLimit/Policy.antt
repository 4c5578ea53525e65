-- ===== src/RateLimit/Policy.antt =====
-- Route classes and the policy of each.
use lumen_horizon.Prelude.{ℕ, ◌+◌, ◌≡◌, Text, codes, arith}
use lumen_horizon.Text.Split.{Lacks}

pub data RouteClass : Type 0 where
  public_tile_metadata tile_redirect public_site_read admin_read admin_write auth_failure :
      RouteClass

-- `RouteClass::as_str`
abbrev pub class_text : RouteClass → Text
class_text public_tile_metadata = codes "public_tile_metadata"
class_text tile_redirect = codes "tile_redirect"
class_text public_site_read = codes "public_site_read"
class_text admin_read = codes "admin_read"
class_text admin_write = codes "admin_write"
class_text auth_failure = codes "auth_failure"

pub record RateLimitPolicy : Type 0 where
  pub limit_per_minute : ℕ
  pub burst : ℕ

abbrev pub policy : RouteClass → RateLimitPolicy
policy public_tile_metadata = record { limit_per_minute = 120; burst = 60 }
policy tile_redirect = record { limit_per_minute = 600; burst = 120 }
policy public_site_read = record { limit_per_minute = 120; burst = 60 }
policy admin_read = record { limit_per_minute = 60; burst = 20 }
policy admin_write = record { limit_per_minute = 10; burst = 5 }
policy auth_failure = record { limit_per_minute = 10; burst = 5 }

-- A sum of two u32 values; the policies of the program stay far below 2 ^ 32.
abbrev pub allowed_in_window : RateLimitPolicy → ℕ
allowed_in_window p = p.limit_per_minute + p.burst

pub class_text_injective : (c d : RouteClass) → class_text c ≡ class_text d → c ≡ d
class_text_injective c d e = ground arith

pub class_text-Lacks : (c : RouteClass) → Lacks b':' (class_text c)
class_text-Lacks c = ground arith
