-- ===== src/App/Wiring.antt =====
-- src/app/crud_1/wiring.py: the configuration of the CRUD library and the shared cache, and what a
-- deployment in production gets from its settings. The bytes of a text are given as the text.
use Prim.Native.String as Text
use template_fastapi.Base.{
  String, Bool, true, false, Option, none, some, [], ◌∷◌, ◌<>◌, is_empty, if◌then◌else◌, ◌≡◌, ◌≢◌,
  refl, arith, nat_eq, Passes, starts_with, All,
}
use template_fastapi.Base.Int.{ℤ}
use template_fastapi.Settings.{Settings, Mode, mock, production, discovery_url}
use template_fastapi.Settings.Checks
use template_fastapi.Settings.Production.{validate-IsSecured_iff}
use template_fastapi.Settings.Secured.{IsSecured}
use template_fastapi.Cache.Redis.{Redis}
use template_fastapi.Cache.Build.{StatsCache, in_memory, in_redis, build_stats_cache}
use template_fastapi.App.Engine.{IsEncrypted, build_engine, build_engine-IsEncrypted}
use template_fastapi.App.Health.{
  Check, mock_check, postgres_check, redis_check, s3_check, http_check, get_health_registry,
  started,
}
use template_fastapi.App.Modes.{application, application-production, application-prefixes}

pub record MqttConfig : Type 0 where
  pub host : String
  pub port : ℤ
  pub keepalive_seconds : ℤ
  pub username : Option String
  pub password : Option String
  pub use_tls : Bool

pub record CrudConfig : Type 0 where
  pub use_memory : Bool
  pub bulk_action_max_matched : ℤ
  pub sse_keepalive_seconds : ℤ
  pub mqtt : MqttConfig
  pub subscriber_secret : Option String

abbrev pub is_mock : Mode → Bool
is_mock mock = true
is_mock _ = false

-- `secret.encode() if secret else None`
abbrev pub encoded : Option String → Option String
encoded none = none
encoded (some s) = if is_empty s then none else some s

unfoldable pub crud_config : Settings → CrudConfig
crud_config s = record {
  use_memory = is_mock s.mode;
  bulk_action_max_matched = s.bulk_action_max_matched;
  sse_keepalive_seconds = s.sse_keepalive_seconds;
  mqtt = record {
    host = s.mqtt_host;
    port = s.mqtt_port;
    keepalive_seconds = s.mqtt_keepalive_seconds;
    username = s.mqtt_username;
    password = s.mqtt_password;
    use_tls = s.mqtt_use_tls;
  };
  subscriber_secret = encoded s.subscriber_secret;
}

-- Events go to a broker over TLS with a login, and their subscribers are signed with a secret.
abbrev pub IsSigned : CrudConfig → Type 0
IsSigned c =
    (c.use_memory ≡ false)
    × (c.mqtt.use_tls ≡ true)
    × (c.mqtt.username ≢ none)
    × (c.mqtt.password ≢ none)
    × (c.subscriber_secret ≢ none)

-- A check that reaches its service, and not in cleartext.
abbrev pub IsReal : Check → Type 0
IsReal (mock_check name) = ⊥
IsReal (postgres_check name) = Unit
IsReal (redis_check name url) = starts_with url "rediss://" ≡ true
IsReal (s3_check name url access_key secret_key) = starts_with url "https://" ≡ true
IsReal (http_check name url) = starts_with url "https://" ≡ true

module _ (R : Redis) (connect : String → R.Server) where
  -- There is no cache, or it is in Redis and was reached over TLS.
  abbrev pub IsShared : Option (StatsCache R connect) → Type 0
  IsShared none = Unit
  IsShared (some (in_memory c)) = ⊥
  IsShared (some (in_redis c)) =
      (url : String) × (starts_with url "rediss://" ≡ true) × (c.server ≡ connect url)

-- A text of 32 characters is not empty.
encoded-set :
    (o : Option String)
    → o ≢ none
    → Checks.holds_if_set (Checks.min_length 32) o ≡ true
    → encoded o ≢ none
encoded-set none set long = λ e. set refl
encoded-set (some Text.[]) set long = absurd (cc)
encoded-set (some (Text.◌∷◌ c t)) set long = λ e. absurd (cc)

-- What a deployment gets: its engine, the CRUD library's configuration, the health checks, the
-- shared cache and the application.
abbrev pub IsDeployed : (R : Redis) → (String → R.Server) → Settings → String → String → Type 0
IsDeployed R connect s router_version version =
    let a = application s router_version version in
    IsEncrypted (build_engine s)
    × IsSigned (crud_config s)
    × All IsReal (get_health_registry s started).1
    × IsShared R connect (build_stats_cache R connect s version)
    × (a.docs_url ≡ none)
    × (a.openapi_url ≡ none)
    × (a.catalog.openapi_url ≡ none)
    × (a.redoc_url ≡ none)
    × (a.prefixes
        ≡ "/health" ∷ ("/crud/v" <> router_version) ∷ "/audit" ∷ "/api/_crud" ∷ "" ∷ "" ∷ [])

module _ (py : Checks.Platform) (s : Settings) (prod : s.mode ≡ production)
    (valid : Passes (Checks.validate py s)) where
  fields : Checks.fields_ok s ≡ true
  fields = ((validate-IsSecured_iff py s prod).0 valid).0

  secured : IsSecured s
  secured = ((validate-IsSecured_iff py s prod).0 valid).3

  no_mock : is_mock s.mode ≡ false
  no_mock = rw prod refl

  secret-set : Checks.holds_if_set (Checks.min_length 32) s.subscriber_secret ≡ true
  unfolding Checks.fields_ok
  secret-set = ground (arith, fields)

  crud_config-IsSigned : IsSigned (crud_config s)
  unfolding crud_config
  crud_config-IsSigned = (
    no_mock,
    secured.mqtt_tls,
    secured.mqtt_user,
    secured.mqtt_secret,
    encoded-set s.subscriber_secret secured.secret_set secret-set,
  )

  registry-IsReal : All IsReal (get_health_registry s started).1
  unfolding get_health_registry discovery_url
  registry-IsReal =
      simp prod (tt, (secured.redis_tls, (secured.s3_tls, (secured.discovery_tls, tt))))

  module _ (R : Redis) (connect : String → R.Server) where
    cache-IsShared :
        (ttl : Option ℤ) (version : String)
        → IsShared R connect
            (build_stats_cache R connect (record s { stats_cache_ttl_seconds = ttl }) version)
    unfolding build_stats_cache
    cache-IsShared none version = tt
    cache-IsShared (some ttl) version = simp prod (s.redis_url, secured.redis_tls, refl)

    -- In production, with settings that pass their validators: the engine of the app's sessions
    -- demands TLS; the CRUD library uses the database and sends its events over TLS with a login and
    -- a signing secret; every health check reaches its service, and none in cleartext; there is no
    -- cache or one in Redis that is reached over TLS; none of the three documents is served and the
    -- catalog advertises none; and the routers stand under the prefixes of the health checks, the
    -- resources, the audit log, the catalog and the root, and none under that of the mock tokens.
    pub validate-IsDeployed :
        (router_version version : String) → IsDeployed R connect s router_version version
    validate-IsDeployed router_version version =
        let a = application-production s router_version version prod in
        (
          build_engine-IsEncrypted py s prod valid,
          crud_config-IsSigned,
          registry-IsReal,
          cache-IsShared s.stats_cache_ttl_seconds version,
          a.0,
          a.2,
          a.3,
          a.1,
          application-prefixes s router_version version prod,
        )
