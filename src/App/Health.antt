-- ===== src/App/Health.antt =====
-- src/app/health_checks.py: the registry of health checks, which is made once, and its one Redis
-- client. What a check does is the library's.
use template_fastapi.Base.{
  String, Bool, true, false, Option, none, some, is_some, List, [], ◌∷◌, map, if◌then◌else◌, All,
  ◌≡◌, refl,
}
use template_fastapi.Settings.{Settings, Mode, mock, discovery_url}

-- A registered check by its name, with what it reaches.
pub data Check : Type 0 where
  mock_check : String → Check
  postgres_check : String → Check
  redis_check : String → String → Check
  s3_check : String → String → String → String → Check
  http_check : String → String → Check

-- Whether the process has made its Redis client, and its registry; `closed` if the client was.
pub record Process : Type 0 where
  pub redis : Option String
  pub registry : Option (List Check)
  pub closed : Bool

abbrev pub started : Process
started = record { redis = none; registry = none; closed = false }

-- `_redis_check`, which is cached.
unfoldable pub redis_client : Settings → Process → Process × Check
redis_client s p = elim p.redis [
  | none ↦ (record p { redis = some s.redis_url; closed = false }, redis_check "redis" s.redis_url)
  | some url ↦ (p, redis_check "redis" url)
]

abbrev pub mock_registry : List Check
mock_registry = map mock_check ("database" ∷ "redis" ∷ "s3" ∷ "oidc" ∷ [])

abbrev pub registry_of : Settings → Check → List Check
registry_of s redis =
    postgres_check "database"
    ∷ redis
    ∷ s3_check "s3" s.s3_endpoint_url s.s3_access_key s.s3_secret_key
    ∷ http_check "oidc" (discovery_url s)
    ∷ []

abbrev pub is_mock : Mode → Bool
is_mock mock = true
is_mock _ = false

abbrev pub with_redis : Settings → Process × Check → Process × List Check
with_redis s (p, redis) = (record p { registry = some (registry_of s redis) }, registry_of s redis)

-- `get_health_registry`, which is cached.
unfoldable pub get_health_registry : Settings → Process → Process × List Check
unfolding redis_client discovery_url
get_health_registry s p = elim p.registry [
  | some checks ↦ (p, checks)
  | none ↦
      if is_mock s.mode
      then (record p { registry = some mock_registry }, mock_registry)
      else with_redis s (redis_client s p)
]

-- `close_health_checks`: only a client that was made is closed.
unfoldable pub close_health_checks : Process → Process
close_health_checks p = if is_some p.redis then record p { closed = true } else p

abbrev pub reaches : Check → Bool
reaches (mock_check name) = false
reaches _ = true

-- In MODE=mock no check reaches a service, no Redis client is made, and none is closed.
pub get_health_registry-mock :
    (s : Settings)
    → s.mode ≡ mock
    → let (p, checks) = get_health_registry s started in
      All (λ c. reaches c ≡ false) checks × (close_health_checks p ≡ p)
unfolding get_health_registry close_health_checks
get_health_registry-mock s h = simp h ((refl, (refl, (refl, (refl, tt)))), refl)
