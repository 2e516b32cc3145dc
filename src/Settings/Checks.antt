-- ===== src/Settings/Checks.antt =====
-- src/app/config.py: the constraints on the fields, and the validators in the order in which
-- they run. The first that raises ends the construction with its message.
use template_fastapi.Base.{
  ℕ, ◌+◌, ◌*◌, String, Bool, true, false, not, ◌&&◌, ◌||◌, Option, none, some, List, [], ◌∷◌, ◌++◌,
  codes, join, ◌<>◌, starts_with, is_none, is_some, is_nil, all, leb, ltb, length, ◌==◌, string_eq,
  nat_eq, list_eq, Result, ok, err, ◌>>◌, refuse, if◌then◌else◌,
}
use template_fastapi.Base.Int.{is_nonneg, is_positive}
use template_fastapi.Settings.{
  Settings, Datetime, Mode, mock, production, PostgresSslMode, require, verify_ca, verify_full,
  expected_issuer, discovery_url,
}
use template_fastapi.Settings.Urls.{SplitResult, urlsplit}

-- What Python knows of characters and hosts, and the clock.
pub record Platform : Type 0 where
  pub netloc_ok : List ℕ → Bool
  pub is_space : ℕ → Bool
  pub is_printable : ℕ → Bool
  pub now : ℕ

abbrev pub is_production : Mode → Bool
is_production production = true
is_production _ = false

abbrev pub is_mock : Mode → Bool
is_mock mock = true
is_mock _ = false

-- `Field(ge=0)`, `Field(gt=0)`, `Field(min_length=n)` on an optional value.
abbrev pub holds_if_set {ℓ} : {A : Type ℓ} → (A → Bool) → Option A → Bool
holds_if_set p none = true
holds_if_set p (some a) = p a

abbrev pub min_length : ℕ → String → Bool
min_length n s = leb n (length (codes s))

unfoldable pub fields_ok : Settings → Bool
fields_ok s =
    holds_if_set is_nonneg s.db_pool_size
    && holds_if_set is_nonneg s.db_max_overflow
    && holds_if_set is_nonneg s.db_pool_recycle
    && holds_if_set is_positive s.db_connect_timeout
    && holds_if_set is_positive s.db_command_timeout
    && holds_if_set is_positive s.stats_cache_ttl_seconds
    && holds_if_set (min_length 32) s.subscriber_secret
    && min_length 1 s.oidc_audience

-- `[message for bad, message in checks if bad]`
abbrev pub messages : List (Bool × String) → List String
messages [] = []
messages ((bad, message) ∷ checks) =
    let rest = messages checks in if bad then message ∷ rest else rest

-- `if problems: raise ValueError("; ".join(problems))`
abbrev pub raise_all : List String → Result String (Unit {0})
raise_all [] = ok tt
raise_all (m ∷ ms) = err (join "; " (m ∷ ms))

abbrev pub or_empty : Option String → String
or_empty none = ""
or_empty (some s) = s

-- `value is not None and not value.startswith("https://")`
abbrev pub not_https : Option String → Bool
not_https none = false
not_https (some s) = not (starts_with s "https://")

abbrev pub is_origin : SplitResult → Bool
is_origin parts =
    (parts.scheme == codes "http" || parts.scheme == codes "https")
    && not (is_nil parts.netloc)
    && (is_nil parts.path || parts.path == codes "/")
    && is_nil parts.query
    && is_nil parts.fragment

-- The three checks of the base URL, given what `urlsplit(url or "")` returned; `none` is its
-- own `ValueError`, which is raised at once.
abbrev pub check_parts : Bool → Option String → Option SplitResult → Result String (Unit {0})
check_parts prod url none = err "Invalid IPv6 URL"
check_parts prod url (some parts) = raise_all (
    messages (
      (
        is_some url && not (is_origin parts),
        "public_base_url must be an http(s) origin with no path",
      )
      ∷ (prod && is_none url, "public_base_url must be set when MODE=production")
      ∷ (prod && not_https url, "public_base_url must use https:// when MODE=production")
      ∷ []))

unfoldable pub validate_public_base_url : Platform → Settings → Result String (Unit {0})
validate_public_base_url py s =
    check_parts (is_production s.mode) s.public_base_url
      (urlsplit py.netloc_ok (codes (or_empty s.public_base_url)))

-- `value is not None and (not value.strip() or not value.isprintable())`
abbrev pub not_one_line : Platform → Option String → Bool
not_one_line py none = false
not_one_line py (some v) = all py.is_space (codes v) || not (all py.is_printable (codes v))

abbrev pub line_checks : Platform → Settings → List (Bool × String)
line_checks py s =
    (not_one_line py s.security_txt_contact, "security_txt_contact must be a single line of text")
    ∷ (not_one_line py s.security_txt_policy, "security_txt_policy must be a single line of text")
    ∷ (
      not_one_line py s.security_txt_preferred_languages,
      "security_txt_preferred_languages must be a single line of text",
    )
    ∷ (
      not_one_line py s.security_txt_canonical,
      "security_txt_canonical must be a single line of text",
    )
    ∷ []

-- `now < expires <= now + timedelta(days=366)`, in microseconds.
abbrev pub is_near : ℕ → ℕ → Bool
is_near now expires = ltb now expires && leb expires (now + 366 * 86_400_000_000)

abbrev pub is_contact_uri : String → Bool
is_contact_uri c = starts_with c "https://" || starts_with c "mailto:" || starts_with c "tel:"

abbrev pub is_naive : Option Datetime → Bool
is_naive none = false
is_naive (some t) = not t.has_zone

abbrev pub is_out_of_range : ℕ → Option Datetime → Bool
is_out_of_range now none = false
is_out_of_range now (some t) = t.has_zone && not (is_near now t.instant)

abbrev pub contact_checks : Platform → Settings → Option String → List (Bool × String)
contact_checks py s none = []
contact_checks py s (some contact) =
    (not (is_contact_uri contact), "security_txt_contact must be an https:, mailto: or tel: URI")
    ∷ (
      not_https s.security_txt_policy || not_https s.security_txt_canonical,
      "security_txt_policy and security_txt_canonical must be https:// URLs",
    )
    ∷ (
      is_none s.security_txt_expires,
      "security_txt_expires must be set when security_txt_contact is",
    )
    ∷ (is_naive s.security_txt_expires, "security_txt_expires must carry a time zone")
    ∷ (
      is_out_of_range py.now s.security_txt_expires,
      "security_txt_expires must be in the future and at most one year ahead",
    )
    ∷ []

unfoldable pub validate_security_txt : Platform → Settings → Result String (Unit {0})
validate_security_txt py s =
    raise_all (messages (line_checks py s) ++ messages (contact_checks py s s.security_txt_contact))

unfoldable pub require_allow_mock_mode_flag : Settings → Result String (Unit {0})
require_allow_mock_mode_flag s =
    refuse (is_mock s.mode && not s.allow_mock_mode)
      "MODE=mock requires ALLOW_MOCK_MODE=1 to be set"

unfoldable pub require_subscriber_secret_in_production : Settings → Result String (Unit {0})
require_subscriber_secret_in_production s =
    refuse (is_production s.mode && is_none s.subscriber_secret)
      "subscriber_secret must be set when MODE=production"

-- The credentials that still have their published default.
abbrev pub left_at_default : Settings → List String
left_at_default s = messages (
    (s.postgres_password == "app", "postgres_password")
    ∷ (s.s3_access_key == "rustfsadmin", "s3_access_key")
    ∷ (s.s3_secret_key == "rustfsadmin", "s3_secret_key")
    ∷ [])

unfoldable pub require_non_default_credentials_in_production : Settings → Result String (Unit {0})
require_non_default_credentials_in_production s =
    refuse (is_production s.mode && not (is_nil (left_at_default s))) (
      join ", " (left_at_default s)
      <> " must not be left at their default value when MODE=production")

abbrev pub insecure : Settings → List String
insecure s = messages (
    (not (starts_with s.s3_endpoint_url "https://"), "s3_endpoint_url must use https://")
    ∷ (not (starts_with s.redis_url "rediss://"), "redis_url must use rediss://")
    ∷ [])

unfoldable pub require_encrypted_connections_in_production : Settings → Result String (Unit {0})
require_encrypted_connections_in_production s =
    refuse (is_production s.mode && not (is_nil (insecure s)))
      (join "; " (insecure s) <> " when MODE=production")

abbrev pub is_strict : Option PostgresSslMode → Bool
is_strict (some require) = true
is_strict (some verify_ca) = true
is_strict (some verify_full) = true
is_strict _ = false

unfoldable pub require_postgres_tls_in_production : Settings → Result String (Unit {0})
require_postgres_tls_in_production s =
    refuse (is_production s.mode && not (is_strict s.postgres_sslmode))
      "postgres_sslmode must be require, verify-ca, or verify-full when MODE=production"

unfoldable pub require_https_oidc_issuer_in_production : Settings → Result String (Unit {0})
require_https_oidc_issuer_in_production s = do
  refuse (is_production s.mode && not (starts_with (expected_issuer s) "https://"))
      "oidc_issuer_url/oidc_issuer must use https:// when MODE=production"
  refuse (is_production s.mode && not (starts_with (discovery_url s) "https://"))
      "oidc_discovery_url must use https:// when MODE=production"

unfoldable pub require_mqtt_auth_in_production : Settings → Result String (Unit {0})
require_mqtt_auth_in_production s =
    refuse
      (is_production s.mode
        && (not s.mqtt_use_tls || is_none s.mqtt_username || is_none s.mqtt_password))
      "mqtt_use_tls, mqtt_username, and mqtt_password must all be set when MODE=production"

-- `Settings()`: the fields' own constraints first, then the validators.
unfoldable pub validate : Platform → Settings → Result String (Unit {0})
validate py s = do
  refuse (not (fields_ok s)) "field constraint"
  validate_public_base_url py s
  validate_security_txt py s
  require_allow_mock_mode_flag s
  require_subscriber_secret_in_production s
  require_non_default_credentials_in_production s
  require_encrypted_connections_in_production s
  require_postgres_tls_in_production s
  require_https_oidc_issuer_in_production s
  require_mqtt_auth_in_production s
