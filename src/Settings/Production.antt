-- ===== src/Settings/Production.antt =====
-- What the validators of src/app/config.py guarantee of the settings that they accept.
use template_fastapi.Base.{
  refuse, String, Bool, true, false, ◌≡◌, ◌≢◌, ◌↔◌, arith, not, nat_eq, Passes, >>-Passes,
  refuse-Passes,
}
use template_fastapi.Settings.{Settings, mock, production}
use template_fastapi.Settings.Checks
use template_fastapi.Settings.Contact.{IsPublishable, security_txt_iff}
use template_fastapi.Settings.Secured.{
  IsSecured, secret_iff, credentials_iff, encrypted_iff, postgres_iff, issuer_iff, mqtt_iff,
}
use template_fastapi.Settings.Origin.{HasBaseUrl, base_url_iff}

Passes-not : (b : Bool) (message : String) → Passes (refuse (not b) message) → b ≡ true
Passes-not b message h = ground (arith, refuse-Passes (not b) message)

-- The whole construction passes exactly if each of its checks does.
pub record EachPasses (py : Checks.Platform) (s : Settings) : Type 0 where
  pub fields : Checks.fields_ok s ≡ true
  pub base_url : Passes (Checks.validate_public_base_url py s)
  pub security_txt : Passes (Checks.validate_security_txt py s)
  pub mock_flag : Passes (Checks.require_allow_mock_mode_flag s)
  pub secret : Passes (Checks.require_subscriber_secret_in_production s)
  pub credentials : Passes (Checks.require_non_default_credentials_in_production s)
  pub encrypted : Passes (Checks.require_encrypted_connections_in_production s)
  pub postgres : Passes (Checks.require_postgres_tls_in_production s)
  pub issuer : Passes (Checks.require_https_oidc_issuer_in_production s)
  pub mqtt : Passes (Checks.require_mqtt_auth_in_production s)

validate_iff :
    (py : Checks.Platform) (s : Settings) → Passes (Checks.validate py s) ↔ EachPasses py s
unfolding Checks.validate
validate_iff py s = (
  λ h.
      let (h0, k0) = (>>-Passes _ _).0 h in
      let (h1, k1) = (>>-Passes _ _).0 k0 in
      let (h2, k2) = (>>-Passes _ _).0 k1 in
      let (h3, k3) = (>>-Passes _ _).0 k2 in
      let (h4, k4) = (>>-Passes _ _).0 k3 in
      let (h5, k5) = (>>-Passes _ _).0 k4 in
      let (h6, k6) = (>>-Passes _ _).0 k5 in
      let (h7, k7) = (>>-Passes _ _).0 k6 in
      let (h8, h9) = (>>-Passes _ _).0 k7 in
      record {
        fields = Passes-not (Checks.fields_ok s) "field constraint" h0;
        base_url = h1;
        security_txt = h2;
        mock_flag = h3;
        secret = h4;
        credentials = h5;
        encrypted = h6;
        postgres = h7;
        issuer = h8;
        mqtt = h9;
      },
  λ e. ground (
    arith, e.fields, e.base_url, e.security_txt, e.mock_flag, e.secret, e.credentials, e.encrypted,
    e.postgres, e.issuer, e.mqtt,
  ),
)

mock_iff :
    (s : Settings)
    → Passes (Checks.require_allow_mock_mode_flag s) ↔ (s.mode ≡ mock → s.allow_mock_mode ≡ true)
unfolding Checks.require_allow_mock_mode_flag
mock_iff s = ground arith

module _ (py : Checks.Platform) (s : Settings) (prod : s.mode ≡ production) where
  IsSecured-EachPasses : EachPasses py s → IsSecured s
  IsSecured-EachPasses e =
      let (own_password, own_access_key, own_secret_key) =
        (credentials_iff s prod).0 e.credentials in
      let (s3_tls, redis_tls) = (encrypted_iff s prod).0 e.encrypted in
      let (issuer_tls, discovery_tls) = (issuer_iff s prod).0 e.issuer in
      let (mqtt_tls, mqtt_user, mqtt_secret) = (mqtt_iff s prod).0 e.mqtt in
      record {
        secret_set = (secret_iff s prod).0 e.secret;
        own_password = own_password;
        own_access_key = own_access_key;
        own_secret_key = own_secret_key;
        s3_tls = s3_tls;
        redis_tls = redis_tls;
        postgres_tls = (postgres_iff s prod).0 e.postgres;
        issuer_tls = issuer_tls;
        discovery_tls = discovery_tls;
        mqtt_tls = mqtt_tls;
        mqtt_user = mqtt_user;
        mqtt_secret = mqtt_secret;
      }

  production_is : Checks.is_production s.mode ≡ true
  production_is = ground arith

  EachPasses-IsSecured :
      Checks.fields_ok s ≡ true
      → HasBaseUrl py true s.public_base_url
      → IsPublishable py s
      → IsSecured s
      → EachPasses py s
  EachPasses-IsSecured f b p k = record {
    fields = f;
    base_url = (base_url_iff py s).1 (rw production_is b);
    security_txt = (security_txt_iff py s).1 p;
    mock_flag = (mock_iff s).1 (λ m. absurd (cc));
    secret = (secret_iff s prod).1 k.secret_set;
    credentials = (credentials_iff s prod).1 (k.own_password, k.own_access_key, k.own_secret_key);
    encrypted = (encrypted_iff s prod).1 (k.s3_tls, k.redis_tls);
    postgres = (postgres_iff s prod).1 k.postgres_tls;
    issuer = (issuer_iff s prod).1 (k.issuer_tls, k.discovery_tls);
    mqtt = (mqtt_iff s prod).1 (k.mqtt_tls, k.mqtt_user, k.mqtt_secret);
  }

-- In production the settings are accepted exactly if every field meets its constraint, the base
-- URL is set and an https origin, the fields of security.txt can be published, and no credential
-- is a published one and no connection in cleartext.
pub validate-IsSecured_iff :
    (py : Checks.Platform) (s : Settings)
    → s.mode ≡ production
    → Passes (Checks.validate py s)
      ↔ (Checks.fields_ok s ≡ true)
        × HasBaseUrl py true s.public_base_url
        × IsPublishable py s
        × IsSecured s
validate-IsSecured_iff py s prod = (
  λ h.
      let e = (validate_iff py s).0 h in
      (
        e.fields,
        rw (production_is py s prod) at ((base_url_iff py s).0 e.base_url),
        (security_txt_iff py s).0 e.security_txt,
        IsSecured-EachPasses py s prod e,
      ),
  λ (f, b, p, k). (validate_iff py s).1 (EachPasses-IsSecured py s prod f b p k),
)

local-Passes :
    (py : Checks.Platform) (s : Settings)
    → Checks.is_production s.mode ≡ false
    → Checks.fields_ok s ≡ true
    → Passes (Checks.validate_public_base_url py s)
    → Passes (Checks.validate_security_txt py s)
    → Passes (Checks.require_allow_mock_mode_flag s)
    → EachPasses py s
unfolding Checks.require_subscriber_secret_in_production
    Checks.require_non_default_credentials_in_production
    Checks.require_encrypted_connections_in_production Checks.require_postgres_tls_in_production
    Checks.require_https_oidc_issuer_in_production Checks.require_mqtt_auth_in_production
local-Passes py s away f b t m = record {
  fields = f;
  base_url = b;
  security_txt = t;
  mock_flag = m;
  secret = rw away;
  credentials = rw away;
  encrypted = rw away;
  postgres = rw away;
  issuer = rw away;
  mqtt = rw away;
}

-- Outside production the settings are accepted exactly if every field meets its constraint, the base
-- URL is an origin if it is set, the fields of security.txt can be published, and MODE=mock
-- comes with its flag.
pub validate_local_iff :
    (py : Checks.Platform) (s : Settings)
    → s.mode ≢ production
    → Passes (Checks.validate py s)
      ↔ (Checks.fields_ok s ≡ true)
        × HasBaseUrl py false s.public_base_url
        × IsPublishable py s
        × (s.mode ≡ mock → s.allow_mock_mode ≡ true)
validate_local_iff py s away =
    let local_mode : Checks.is_production s.mode ≡ false = ground arith in
    (
      λ h.
          let e = (validate_iff py s).0 h in
          (
            e.fields,
            rw local_mode at ((base_url_iff py s).0 e.base_url),
            (security_txt_iff py s).0 e.security_txt,
            (mock_iff s).0 e.mock_flag,
          ),
      λ (f, b, p, m). (validate_iff py s).1 (
          local-Passes py s local_mode f ((base_url_iff py s).1 (rw local_mode b))
            ((security_txt_iff py s).1 p) ((mock_iff s).1 m)),
    )
