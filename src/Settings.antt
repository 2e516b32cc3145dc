-- ===== src/Settings.antt =====
-- src/app/config.py: the fields of `Settings` and the values computed from them. Seconds that
-- the source keeps as floats are whole microseconds here; a `datetime` is its instant in
-- microseconds with a flag for its time zone, since the code compares and renders no more.
pub mod Defaults
pub mod Urls
pub mod Checks
pub mod Secured
pub mod Origin
pub mod Production
pub mod Contact
mod Tests
use template_fastapi.Base.{
  ℕ, String, Bool, Option, none, some, List, is_empty, rstrip_char, ◌<>◌, if◌then◌else◌,
}
use template_fastapi.Base.Int.{ℤ}

pub data Mode : Type 0 where
  dev mock production : Mode

pub data PostgresSslMode : Type 0 where
  disable allow prefer require verify_ca verify_full : PostgresSslMode

pub data PoolMode : Type 0 where
  null local external : PoolMode

pub record Datetime : Type 0 where
  pub instant : ℕ
  pub has_zone : Bool

pub record Settings : Type 0 where
  pub app_name : String
  pub mode : Mode
  pub allow_mock_mode : Bool
  pub bulk_action_max_matched : ℤ
  pub rate_limit_mock_token : String
  pub rate_limit_bulk_action : String
  pub archive_purge_after_days : Option ℤ
  pub postgres_user : String
  pub postgres_password : String
  pub postgres_db : String
  pub postgres_host : String
  pub postgres_port : ℤ
  pub postgres_sslmode : Option PostgresSslMode
  pub db_pool_mode : PoolMode
  pub db_pool_size : Option ℤ
  pub db_max_overflow : Option ℤ
  pub db_pool_recycle : Option ℤ
  pub db_connect_timeout : Option ℤ
  pub db_command_timeout : Option ℤ
  pub run_migrations_on_startup : Bool
  pub gc_freeze : Bool
  pub health_info_enabled : Bool
  pub profiling_enabled : Bool
  pub s3_endpoint_url : String
  pub s3_access_key : String
  pub s3_secret_key : String
  pub redis_url : String
  pub stats_cache_ttl_seconds : Option ℤ
  pub mqtt_host : String
  pub mqtt_port : ℤ
  pub mqtt_keepalive_seconds : ℤ
  pub mqtt_username : Option String
  pub mqtt_password : Option String
  pub subscriber_secret : Option String
  pub mqtt_use_tls : Bool
  pub sse_keepalive_seconds : ℤ
  pub oidc_issuer_url : String
  pub oidc_issuer : Option String
  pub oidc_discovery_url : Option String
  pub oidc_authorization_url : String
  pub oidc_token_url : String
  pub oidc_client_id : String
  pub oidc_algorithm : String
  pub oidc_audience : String
  pub oidc_scopes_supported : List String
  pub public_base_url : Option String
  pub security_txt_contact : Option String
  pub security_txt_expires : Option Datetime
  pub security_txt_policy : Option String
  pub security_txt_preferred_languages : Option String
  pub security_txt_canonical : Option String

-- The DSN of the database, which is the engine's first argument; `shown` writes a number.
abbrev pub database_url : (ℤ → String) → Settings → String
database_url shown s =
    "postgresql+asyncpg://"
    <> (s.postgres_user
        <> (":"
            <> (s.postgres_password
                <> ("@"
                    <> (s.postgres_host
                        <> (":" <> (shown s.postgres_port <> ("/" <> s.postgres_db))))))))

-- `value or default`: the empty text is falsy too.
abbrev pub or_default : Option String → String → String
or_default none d = d
or_default (some s) d = if is_empty s then d else s

unfoldable pub expected_issuer : Settings → String
expected_issuer s = or_default s.oidc_issuer s.oidc_issuer_url

unfoldable pub discovery_url : Settings → String
unfolding rstrip_char
discovery_url s =
    let base = rstrip_char b'/' (expected_issuer s) in
    or_default s.oidc_discovery_url (base <> "/.well-known/openid-configuration")

unfoldable pub resource_url : Settings → String
unfolding rstrip_char
resource_url s = rstrip_char b'/' (or_default s.public_base_url "http://localhost:8000")

unfoldable pub resource_metadata_url : Settings → String
resource_metadata_url s = resource_url s <> "/.well-known/oauth-protected-resource"
