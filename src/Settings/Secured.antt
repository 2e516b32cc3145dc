-- ===== src/Settings/Secured.antt =====
-- What the production validators of src/app/config.py ask of the settings, one by one.
use template_fastapi.Base.{
  true, ◌≡◌, ◌≢◌, ◌↔◌, ◌⊎◌, none, some, starts_with, arith, nat_eq, Passes, eq_iff,
}
use template_fastapi.Settings.{
  Settings, production, require, verify_ca, verify_full, expected_issuer, discovery_url,
}
use template_fastapi.Settings.Checks

-- What a deployment in production has: no published credential, and no channel in cleartext.
pub record IsSecured (s : Settings) : Type 0 where
  pub secret_set : s.subscriber_secret ≢ none
  pub own_password : s.postgres_password ≢ "app"
  pub own_access_key : s.s3_access_key ≢ "rustfsadmin"
  pub own_secret_key : s.s3_secret_key ≢ "rustfsadmin"
  pub s3_tls : starts_with s.s3_endpoint_url "https://" ≡ true
  pub redis_tls : starts_with s.redis_url "rediss://" ≡ true
  pub postgres_tls :
      (s.postgres_sslmode ≡ some require)
      ⊎ ((s.postgres_sslmode ≡ some verify_ca) ⊎ (s.postgres_sslmode ≡ some verify_full))
  pub issuer_tls : starts_with (expected_issuer s) "https://" ≡ true
  pub discovery_tls : starts_with (discovery_url s) "https://" ≡ true
  pub mqtt_tls : s.mqtt_use_tls ≡ true
  pub mqtt_user : s.mqtt_username ≢ none
  pub mqtt_secret : s.mqtt_password ≢ none

module _ (s : Settings) (prod : s.mode ≡ production) where
  pub secret_iff :
      Passes (Checks.require_subscriber_secret_in_production s) ↔ (s.subscriber_secret ≢ none)
  unfolding Checks.require_subscriber_secret_in_production
  secret_iff = rw (prod, Checks.require_subscriber_secret_in_production) (ground arith)

  pub credentials_iff :
      Passes (Checks.require_non_default_credentials_in_production s)
      ↔ (s.postgres_password ≢ "app")
        × (s.s3_access_key ≢ "rustfsadmin")
        × (s.s3_secret_key ≢ "rustfsadmin")
  unfolding Checks.require_non_default_credentials_in_production
  credentials_iff = ground (
    arith,
    eq_iff s.postgres_password "app",
    eq_iff s.s3_access_key "rustfsadmin",
    eq_iff s.s3_secret_key "rustfsadmin",
  )

  pub encrypted_iff :
      Passes (Checks.require_encrypted_connections_in_production s)
      ↔ (starts_with s.s3_endpoint_url "https://" ≡ true)
        × (starts_with s.redis_url "rediss://" ≡ true)
  unfolding Checks.require_encrypted_connections_in_production
  encrypted_iff = ground arith

  pub postgres_iff : Passes (Checks.require_postgres_tls_in_production s) ↔ (
      (s.postgres_sslmode ≡ some require)
      ⊎ ((s.postgres_sslmode ≡ some verify_ca) ⊎ (s.postgres_sslmode ≡ some verify_full)))
  unfolding Checks.require_postgres_tls_in_production
  postgres_iff = ground arith

  pub issuer_iff :
      Passes (Checks.require_https_oidc_issuer_in_production s)
      ↔ (starts_with (expected_issuer s) "https://" ≡ true)
        × (starts_with (discovery_url s) "https://" ≡ true)
  unfolding Checks.require_https_oidc_issuer_in_production
  issuer_iff = ground arith

  pub mqtt_iff :
      Passes (Checks.require_mqtt_auth_in_production s)
      ↔ (s.mqtt_use_tls ≡ true) × (s.mqtt_username ≢ none) × (s.mqtt_password ≢ none)
  unfolding Checks.require_mqtt_auth_in_production
  mqtt_iff = ground arith
