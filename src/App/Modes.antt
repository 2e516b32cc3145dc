-- ===== src/App/Modes.antt =====
-- What src/app/main.py makes of the settings: the routes and the debugger of each mode, and the
-- middleware. Which routers exist is FastAPI's and the libraries'.
use template_fastapi.Base.{
  String, Bool, true, false, Option, none, some, List, [], ◌∷◌, ◌++◌, ◌≡◌, refl, arith, rstrip_char,
  ◌<>◌,
}
use template_fastapi.Settings.{Settings, Mode, dev, mock, production, expected_issuer, or_default}

-- `_docs_path`
unfoldable pub docs_path : String → Mode → Option String
docs_path path production = none
docs_path path _ = some path

-- `_api_catalog_router`: the URLs that the catalog advertises.
pub record Catalog : Type 0 where
  pub manifest_url : String
  pub openapi_url : Option String

unfoldable pub api_catalog_router : Mode → Catalog
unfolding docs_path
api_catalog_router mode = record {
  manifest_url = "/api/_crud/manifest";
  openapi_url = docs_path "/openapi.json" mode;
}

-- `_service_version`: APP_VERSION, else the version that is installed.
unfoldable pub service_version : Option String → String → String
service_version app_version installed = or_default app_version installed

-- What listening for a debugger comes to, and whether it is started.
pub data Listening : Type 0 where
  listens : Listening
  runtime_error : Listening
  other_error : Listening

-- `_enable_debugger`: a RuntimeError is suppressed, another error is raised.
abbrev pub enable_debugger : Listening → Bool
enable_debugger other_error = false
enable_debugger _ = true

-- `_configure_debugger`: whether a debugger is asked for, and whether the import goes on.
unfoldable pub configure_debugger : Mode → Listening → Bool × Bool
configure_debugger dev outcome = (true, enable_debugger outcome)
configure_debugger _ outcome = (false, true)

-- `_mount_mode_specific_routers`
unfoldable pub mount_mode_specific_routers : Mode → List String
mount_mode_specific_routers mock = "/mock" ∷ []
mount_mode_specific_routers _ = []

-- The application: FastAPI's own routes, and the prefixes under which the routers stand.
pub record Application : Type 0 where
  pub title : String
  pub debug : Bool
  pub docs_url : Option String
  pub redoc_url : Option String
  pub openapi_url : Option String
  pub client_id : String
  pub prefixes : List String
  pub catalog : Catalog
  pub health_info : Bool
  pub manifest_service : String × String
  pub discovery : String
  pub profiling : Bool × Bool

abbrev pub is_dev : Mode → Bool
is_dev dev = true
is_dev _ = false

abbrev pub is_production : Mode → Bool
is_production production = true
is_production _ = false

-- The app at the end of the module, for a router version and a service version.
unfoldable pub application : Settings → String → String → Application
unfolding docs_path mount_mode_specific_routers api_catalog_router rstrip_char expected_issuer
application s router_version version = record {
  title = s.app_name;
  debug = is_dev s.mode;
  docs_url = docs_path "/docs" s.mode;
  redoc_url = docs_path "/redoc" s.mode;
  openapi_url = docs_path "/openapi.json" s.mode;
  client_id = s.oidc_client_id;
  prefixes =
      ("/health" ∷ ("/crud/v" <> router_version) ∷ "/audit" ∷ "/api/_crud" ∷ "" ∷ "" ∷ [])
      ++ mount_mode_specific_routers s.mode;
  catalog = api_catalog_router s.mode;
  health_info = s.health_info_enabled;
  manifest_service = (s.app_name, version);
  discovery = rstrip_char b'/' (expected_issuer s) <> "/.well-known/openid-configuration";
  profiling = (s.profiling_enabled, is_production s.mode);
}

-- In production no route of the documentation is served and none is advertised, nothing debugs, and
-- no route issues mock tokens.
pub application-production :
    (s : Settings) (router_version version : String)
    → s.mode ≡ production
    → let a = application s router_version version in
      (a.docs_url ≡ none)
      × (a.redoc_url ≡ none)
      × (a.openapi_url ≡ none)
      × (a.catalog.openapi_url ≡ none)
      × (a.debug ≡ false)
      × (mount_mode_specific_routers s.mode ≡ [])
unfolding application
application-production s router_version version h = ground arith

-- In production the routers stand under these prefixes and no other.
pub application-prefixes :
    (s : Settings) (router_version version : String)
    → s.mode ≡ production
    → (application s router_version version).prefixes
      ≡ "/health" ∷ ("/crud/v" <> router_version) ∷ "/audit" ∷ "/api/_crud" ∷ "" ∷ "" ∷ []
unfolding application
application-prefixes s router_version version h = rw h refl
