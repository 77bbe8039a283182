-- ===== src/Core/Redis.antt =====
-- app/core/redis.py: the addresses of the two stores. The decimal text of a number is a parameter.
use payment_gateway_system.Prelude.{ℕ, String, ◌&&◌, ◌==◌, str_eq, if◌then◌else◌}
use payment_gateway_system.Core.Config.{Settings}
use Prim.Native.Char.{code}
use Prim.Native.String.{◌++◌}

-- `base.rstrip("/")`
unfoldable pub rstrip_slash : String → String
rstrip_slash String.[] = ""
rstrip_slash (String.◌∷◌ c s) =
    let rest = rstrip_slash s in
    if str_eq rest "" && (code c == b'/') then "" else String.◌∷◌ c rest

module _ (str : ℕ → String) where
  abbrev pub build_url : String → ℕ → String
  build_url base db = rstrip_slash base ++ ("/" ++ str db)

  abbrev pub idempotency_redis : Settings → String
  idempotency_redis settings = build_url settings.redis_url settings.redis_idempotency_db

  abbrev pub ratelimit_redis : Settings → String
  ratelimit_redis settings = build_url settings.redis_url settings.redis_ratelimit_db
