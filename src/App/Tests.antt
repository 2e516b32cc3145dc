-- ===== src/App/Tests.antt =====
-- The theorems on the parts around the routes at concrete inputs.
use template_fastapi.Base.{
  ◌⊎◌, String, Bool, true, false, ◌&&◌, List, [], ◌∷◌, ◌++◌, Option, none, some, leb, ltb, ◌≡◌, ◌≢◌,
  refl, ◌==◌, nat_eq, string_eq, if◌then◌else◌, Passes,
}
use template_fastapi.Settings.{Settings, production}
use template_fastapi.Settings.Defaults.{default_settings}
use template_fastapi.Settings.Checks
use template_fastapi.App.Lifespan.{
  Step, Run, create_task, close_health_checks, analytics_shutdown, dispose_engine, in_redis,
  lifespan, cache_started, cache_ended, has_started, IsStarted, IsServing, lifespan-closes,
}
use template_fastapi.App.Headers.{
  lower_names, Headers, IsHeaders, Message, start, rest, Scope, security_headers_middleware,
}
use template_fastapi.App.Secured.{AreSecure, security_headers_middleware-AllSecure}
use template_fastapi.App.Wiring.{IsDeployed, validate-IsDeployed}
use template_fastapi.Base.Int.{pos}
use template_fastapi.Cache.Redis.{Redis}
use template_fastapi.Settings.{require, expected_issuer, discovery_url}
use template_fastapi.Settings.Urls
use template_fastapi.Base.{list_beq}
use template_fastapi.App.WellKnown.{IsServed, render_security_txt-IsServed}

-- The start of the task fails.
abbrev fails_to_start : Step → Bool
fails_to_start create_task = true
fails_to_start _ = false

lifespan-closes_example :
    (first : Run) × IsStarted fails_to_start default_settings first
    × (((first.1 ≡ true) × (lifespan fails_to_start default_settings in_redis ≡ first))
        ⊎ ((first.1 ≡ false)
            × ((serving : List Step) × IsServing fails_to_start default_settings serving
                × ((lifespan fails_to_start default_settings in_redis).0
                    ≡ first.0
                      ++ (cache_started fails_to_start in_redis
                          ++ ((if has_started fails_to_start in_redis
                                then serving ++ cache_ended fails_to_start in_redis
                                else [])
                              ++ (close_health_checks ∷ analytics_shutdown ∷ dispose_engine
                                  ∷ [])))))))
lifespan-closes_example = lifespan-closes fails_to_start default_settings in_redis

-- Headers as a function of the name in lower case.
abbrev lower_of : List (String × String) → String → String
lower_of [] n = n
lower_of ((name, low) ∷ ns) n = if n == name then low else lower_of ns n

abbrev map_headers : Headers
map_headers = record {
  Store = String → Option String;
  get = λ h n. h (lower_of lower_names n);
  set = λ h n v m. if m == lower_of lower_names n then some v else h m;
  lower = lower_of lower_names;
}

map_headers-IsHeaders : IsHeaders map_headers
map_headers-IsHeaders = record {
  get-set = λ h n m v. refl;
  lowered = (refl, (refl, (refl, (refl, (refl, (refl, tt))))));
}

abbrev scope : Scope map_headers
scope = record { kind = "http"; path = "/docs" }

abbrev page : List (Message map_headers)
page = start 200 (λ n. none) ∷ rest "<html>" ∷ []

security_headers_middleware-AllSecure_example :
    (scope.kind ≡ "http"
      → AreSecure map_headers map_headers-IsHeaders scope.path page
          (security_headers_middleware map_headers scope page))
    × (scope.kind ≢ "http" → security_headers_middleware map_headers scope page ≡ page)
security_headers_middleware-AllSecure_example =
    security_headers_middleware-AllSecure map_headers map_headers-IsHeaders scope page

-- ASCII text, and a clock at 1.
abbrev py : Checks.Platform
py = record {
  netloc_ok = λ host. true;
  is_space = λ c. c == 32;
  is_printable = λ c. leb 32 c && ltb c 127;
  now = 1;
}

abbrev reachable : Settings
reachable = record default_settings {
  security_txt_contact = some "mailto:security@example.org";
  security_txt_expires = some (record { instant = 2; has_zone = true });
}

reachable-Passes : Passes (Checks.validate_security_txt py reachable)
unfolding Checks.validate_security_txt
reachable-Passes = refl

render_security_txt-IsServed_example :
    IsServed py (λ t. "2026-11-26T00:00:00Z") reachable reachable.security_txt_contact
render_security_txt-IsServed_example =
    render_security_txt-IsServed py (λ t. "2026-11-26T00:00:00Z") reachable reachable-Passes

abbrev deployed : Settings
deployed = record default_settings {
  mode = production;
  postgres_password = "p";
  s3_access_key = "k";
  s3_secret_key = "s";
  s3_endpoint_url = "https://s3.example.org";
  redis_url = "rediss://redis.example.org";
  postgres_sslmode = some require;
  subscriber_secret = some "0123456789abcdef0123456789abcdef";
  mqtt_use_tls = true;
  mqtt_username = some "u";
  mqtt_password = some "p";
  oidc_issuer_url = "https://id.example.org/";
  public_base_url = some "https://api.example.org";
  stats_cache_ttl_seconds = some (pos 60);
}

deployed-Passes : Passes (Checks.validate py deployed)
unfolding Checks.validate Checks.fields_ok Checks.validate_public_base_url
    Checks.validate_security_txt Checks.require_allow_mock_mode_flag
    Checks.require_subscriber_secret_in_production
    Checks.require_non_default_credentials_in_production
    Checks.require_encrypted_connections_in_production Checks.require_postgres_tls_in_production
    Checks.require_https_oidc_issuer_in_production Checks.require_mqtt_auth_in_production
    expected_issuer discovery_url Urls.urlsplit list_beq
deployed-Passes = refl

-- A server that keeps nothing.
abbrev lost : Redis
lost = record {
  Server = Unit {0};
  get = λ s k. some none;
  set = λ s k v t. some s;
  scan = λ s p. some [];
  unlink = λ s ks. some s;
}

validate-IsDeployed_example : IsDeployed lost (λ url. tt) deployed "1" "2.0"
validate-IsDeployed_example =
    validate-IsDeployed py deployed refl deployed-Passes lost (λ url. tt) "1" "2.0"
