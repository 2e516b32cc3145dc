-- ===== src/Settings/Defaults.antt =====
-- The defaults of `Settings` in src/app/config.py.
use template_fastapi.Base.{true, false, none, [], ◌∷◌}
use template_fastapi.Base.Int.{pos}
use template_fastapi.Settings.{Settings, dev, PoolMode}

abbrev pub default_settings : Settings
default_settings = record {
  app_name = "template-fastapi";
  mode = dev;
  allow_mock_mode = false;
  bulk_action_max_matched = pos 1000;
  rate_limit_mock_token = "10/minute";
  rate_limit_bulk_action = "20/minute";
  archive_purge_after_days = none;
  postgres_user = "app";
  postgres_password = "app";
  postgres_db = "app";
  postgres_host = "localhost";
  postgres_port = pos 5432;
  postgres_sslmode = none;
  db_pool_mode = PoolMode.null;
  db_pool_size = none;
  db_max_overflow = none;
  db_pool_recycle = none;
  db_connect_timeout = none;
  db_command_timeout = none;
  run_migrations_on_startup = true;
  gc_freeze = true;
  health_info_enabled = false;
  profiling_enabled = false;
  s3_endpoint_url = "http://localhost:9000";
  s3_access_key = "rustfsadmin";
  s3_secret_key = "rustfsadmin";
  redis_url = "redis://localhost:6379/0";
  stats_cache_ttl_seconds = none;
  mqtt_host = "localhost";
  mqtt_port = pos 1883;
  mqtt_keepalive_seconds = pos 60;
  mqtt_username = none;
  mqtt_password = none;
  subscriber_secret = none;
  mqtt_use_tls = false;
  sse_keepalive_seconds = pos 15_000_000;
  oidc_issuer_url = "http://localhost:8080/realms/template-fastapi";
  oidc_issuer = none;
  oidc_discovery_url = none;
  oidc_authorization_url =
      "http://localhost:8080/realms/template-fastapi/protocol/openid-connect/auth";
  oidc_token_url = "http://localhost:8080/realms/template-fastapi/protocol/openid-connect/token";
  oidc_client_id = "api";
  oidc_algorithm = "RS256";
  oidc_audience = "api";
  oidc_scopes_supported = "openid" ∷ [];
  public_base_url = none;
  security_txt_contact = none;
  security_txt_expires = none;
  security_txt_policy = none;
  security_txt_preferred_languages = none;
  security_txt_canonical = none;
}
